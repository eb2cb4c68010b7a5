-- ===== src/Epoch/Minimum.antt =====
-- The least epoch of the active readers.
use mathlib.Core.List.{Memᴰ}
use mathlib.Core.List.Memᴰ
use tg_chat_server.Prelude.{
  ℕ, ◌-◌, ◌^◌, ◌≤◌, ◌<◌, ◌≢◌, inl, inr, arith, not, ◌&&◌, List, [], ◌∷◌, ltb, nat_beq,
  if◌then◌else◌,
}
use tg_chat_server.Epoch.{ReaderSlot, Epoch, least_epoch, min_active_epoch}

least_epoch-le : (rs : List ReaderSlot) (minv : ℕ) → least_epoch rs minv ≤ minv
unfolding least_epoch
least_epoch-le [] minv = omega arith
least_epoch-le (s ∷ rest) minv =
    ground (arith, least_epoch-le rest s.epoch, least_epoch-le rest minv)

least_epoch_lem :
    (rs : List ReaderSlot) (minv : ℕ) (s : ReaderSlot)
    → Memᴰ s rs
    → s.epoch ≢ 0
    → least_epoch rs minv ≤ s.epoch
unfolding least_epoch
least_epoch_lem [] minv s m h = elim m [ ]
least_epoch_lem (r ∷ rest) minv s m h = elim (Memᴰ.cases_cons m) [
  | inl e ↦ ground (arith, e, least_epoch-le rest r.epoch, least_epoch-le rest minv)
  | inr n ↦
      least_epoch_lem rest (if not (nat_beq r.epoch 0) && ltb r.epoch minv then r.epoch else minv) s
        n h
]

-- No active reader has announced an epoch below the least one, if its epoch is not the number that
-- stands for no reader.
pub min_active_epoch_lem :
    (e : Epoch) (s : ReaderSlot)
    → Memᴰ s e.readers
    → s.epoch ≢ 0
    → s.epoch < 2 ^ 32 - 1
    → min_active_epoch e ≤ s.epoch
unfolding min_active_epoch
min_active_epoch_lem e s m h b = ground (arith, least_epoch_lem e.readers (2 ^ 32 - 1) s m h)
