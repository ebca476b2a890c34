-- ===== src/Interpreter/Memory/IdMap.antt =====
-- `IdHashMap` of src/interpreter/memory.rs: items under the ids that it hands out. The `HashMap` is an
-- association list. Ids are u64 and count insertions, so they do not wrap.
use lakesis.Base.{ℕ, suc, Bool, List, [], map, Option, ◌==◌}
use lakesis.Base.Dict.{lookup, remove as remove_key, insert as insert_key}

pub record IdMap {ℓ} (A : Type ℓ) : Type ℓ where
  pub next_id : ℕ
  pub entries : List (ℕ × A)

abbrev pub id_eq : ℕ → ℕ → Bool
id_eq a b = a == b

module _ {ℓ} {A : Type ℓ} where
  -- `IdHashMap::new`, with `T::Id::first()`.
  unfoldable pub empty : IdMap A
  empty = record { next_id = 1; entries = [] }

  unfoldable pub peek_next_id : IdMap A → ℕ
  peek_next_id m = m.next_id

  -- The item is made from its id, as `set_id` does.
  unfoldable pub insert : (ℕ → A) → IdMap A → IdMap A
  insert item m = record {
    next_id = suc m.next_id;
    entries = insert_key id_eq m.next_id (item m.next_id) m.entries;
  }

  unfoldable pub get : ℕ → IdMap A → Option A
  get id m = lookup id_eq id m.entries

  -- A write through `get_mut(id).unwrap()`.
  unfoldable pub put : ℕ → A → IdMap A → IdMap A
  put id a m = record m { entries = insert_key id_eq id a m.entries }

  unfoldable pub remove : ℕ → IdMap A → IdMap A
  remove id m = record m { entries = remove_key id_eq id m.entries }

  -- `iter()`, in some order.
  unfoldable pub values : IdMap A → List A
  values m = map (λ e. e.1) m.entries
