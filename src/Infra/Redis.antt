-- ===== src/Infra/Redis.antt =====
-- The commands of Redis that internal/infra/redis sends, and the progress of an upload in
-- internal/infra/redis/upload_progress_store.go.
pub mod Progress
pub mod Refresh
use ragkb.Base.{
  ℕ, ℤ, pos, ◌*◌, ◌^◌, ◌≡◌, Bool, true, false, ◌&&◌, Option, some, none, List, [], ◌∷◌, ◌++◌, ◌==◌,
  ◌==ℤ◌, if◌then◌else◌,
}
use ragkb.Text.{Text, lit, ◌==ᵗ◌}
use ragkb.Text.Decimal.{decimal}
use ragkb.Action.{Result, ok, Action}

-- The commands that a transaction pipeline queues. A duration is in nanoseconds.
pub data Command : Type 0 where
  set_bit : Text → ℤ → ℤ → Command
  expire : Text → ℕ → Command

-- One bit and one expiry after the queued commands have run in their order.
abbrev pub bit_after : List Command → Text → ℕ → Bool → Bool
bit_after [] key i b = b
bit_after (set_bit k offset v ∷ cs) key i b =
    bit_after cs key i (if k ==ᵗ key && offset ==ℤ pos i then v ==ℤ pos 1 else b)
bit_after (expire k d ∷ cs) key i b = bit_after cs key i b

abbrev pub expiry_after : List Command → Text → Option ℕ → Option ℕ
expiry_after [] key e = e
expiry_after (set_bit k offset v ∷ cs) key e = expiry_after cs key e
expiry_after (expire k d ∷ cs) key e = expiry_after cs key (if k ==ᵗ key then some d else e)

-- Redis is not part of the repository: its commands are parameters over the states `S` of the
-- server, with the documented effect of those that return no error.
pub record Redis (S : Type 0) : Type 0 where
  -- The bit at an offset of a key; a key that is not there is all zeros.
  pub bit : S → Text → ℕ → Bool
  -- The expiry that was last set on a key.
  pub expiry : S → Text → Option ℕ
  pub get_bit : Text → ℤ → S → Result ℤ
  pub exec : List Command → Action S (Unit {0})
  pub del : Text → Action S (Unit {0})
  pub get_bit_ok :
      (k : Text) (i : ℕ) (s : S) (b : ℤ)
      → get_bit k (pos i) s ≡ ok b
      → b ≡ (if bit s k i then pos 1 else pos 0)
  pub exec_ok :
      (cs : List Command) (s s' : S) (u : Unit {0})
      → exec cs s ≡ (ok u, s')
      → (k : Text)
      → ((i : ℕ) → bit s' k i ≡ bit_after cs k i (bit s k i))
        × (expiry s' k ≡ expiry_after cs k (expiry s k))
  pub del_ok :
      (key : Text) (s s' : S) (u : Unit {0})
      → del key s ≡ (ok u, s')
      → (k : Text)
      → ((i : ℕ) → bit s' k i ≡ (if key ==ᵗ k then false else bit s k i))
        × (expiry s' k ≡ (if key ==ᵗ k then none else expiry s k))

-- The commands on keys that hold a number, likewise.
pub record Keys (S : Type 0) : Type 0 where
  -- The key is there.
  pub has_key : S → Text → Bool
  -- SET key value, with an expiry
  pub set : Text → ℤ → ℤ → Action S (Unit {0})
  -- EXISTS key: how many there are
  pub exists : Text → S → Result ℤ
  pub del : Text → Action S (Unit {0})
  pub set_ok :
      (key : Text) (v ttl : ℤ) (s s' : S) (u : Unit {0})
      → set key v ttl s ≡ (ok u, s')
      → (k : Text) → has_key s' k ≡ (if key ==ᵗ k then true else has_key s k)
  pub exists_ok :
      (key : Text) (s : S) (n : ℤ)
      → exists key s ≡ ok n
      → n ≡ (if has_key s key then pos 1 else pos 0)
  pub del_ok :
      (key : Text) (s s' : S) (u : Unit {0})
      → del key s ≡ (ok u, s')
      → (k : Text) → has_key s' k ≡ (if key ==ᵗ k then false else has_key s k)
