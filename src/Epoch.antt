-- ===== src/Epoch.antt =====
-- server/core/shm/shm_epoch.h: the epochs that readers of the hash map announce. Each operation is one
-- atomic access, or reads one reader's slot after another as one step. An index outside the slots
-- changes nothing here, where the code would write outside its header.
pub mod Minimum
use tg_chat_server.Prelude.{
  ℕ, suc, ◌+◌, ◌-◌, ◌^◌, Bool, true, false, not, ◌&&◌, Option, none, some, List, [], ◌∷◌, replicate,
  get_elem?, set, ltb, nat_beq, if◌then◌else◌, add32,
}

abbrev pub max_readers : ℕ
max_readers = 1024

pub record ReaderSlot : Type 0 where
  pub epoch : ℕ
  pub taken : Bool
  pub tid : ℕ

abbrev pub free_slot : ReaderSlot
free_slot = record { epoch = 0; taken = false; tid = 0 }

pub record Epoch : Type 0 where
  pub global_epoch : ℕ
  pub readers : List ReaderSlot

unfoldable pub new_epoch : Epoch
new_epoch = record { global_epoch = 1; readers = replicate max_readers free_slot }

-- The first free slot is taken; none is the result -1.
unfoldable pub take_slot : List ReaderSlot → ℕ → List ReaderSlot × Option ℕ
take_slot [] tid = ([], none)
take_slot (s ∷ rest) tid =
    let later = take_slot rest tid in
    if s.taken
    then (s ∷ later.0, elim later.1 [ none ↦ none | some i ↦ some (suc i) ])
    else (record s { taken = true; tid = tid } ∷ rest, some 0)

unfoldable pub register_reader : Epoch → ℕ → Epoch × Option ℕ
register_reader e tid = let q = take_slot e.readers tid in (record e { readers = q.0 }, q.1)

unfoldable pub unregister_reader : Epoch → ℕ → Epoch
unregister_reader e i = record e { readers = set e.readers i free_slot }

unfoldable pub put_epoch : List ReaderSlot → ℕ → ℕ → List ReaderSlot
put_epoch rs i x = elim (get_elem? rs i) [ none ↦ rs | some s ↦ set rs i (record s { epoch = x }) ]

unfoldable pub reader_enter : Epoch → ℕ → Epoch
reader_enter e i = record e { readers = put_epoch e.readers i e.global_epoch }

unfoldable pub reader_exit : Epoch → ℕ → Epoch
reader_exit e i = record e { readers = put_epoch e.readers i 0 }

unfoldable pub bump_epoch : Epoch → Epoch × ℕ
bump_epoch e = let next = add32 e.global_epoch 1 in (record e { global_epoch = next }, next)

-- The loop of `MinActiveEpoch`.
unfoldable pub least_epoch : List ReaderSlot → ℕ → ℕ
least_epoch [] minv = minv
least_epoch (s ∷ rest) minv =
    least_epoch rest (if not (nat_beq s.epoch 0) && ltb s.epoch minv then s.epoch else minv)

-- `UINT32_MAX` stands for no reader.
unfoldable pub min_active_epoch : Epoch → ℕ
min_active_epoch e =
    let minv = least_epoch e.readers (2 ^ 32 - 1) in
    if nat_beq minv (2 ^ 32 - 1) then e.global_epoch else minv
