-- ===== src/Infra/Mysql/Users/Members.antt =====
-- Lists of memberships, as the statements of internal/infra/mysql/user_repo.go change them.
use ragkb.Base.{
  ◌++◌, none, ℤ, pos, ◌≡◌, inl, inr, refl, Bool, true, false, ◌&&◌, ◌==ℤ◌, ltb_ℤ, some, List, [],
  ◌∷◌, map, length, keep, first_match, Bool-cases, arith, if◌then◌else◌,
}
use ragkb.Text.{Text}
use ragkb.Text.Collation.{Collation}
use ragkb.Domain.Document.Repo.{update_rows}
use ragkb.Infra.Mysql.Users.{UserTenant, has_member, has_primary}

-- Some element passes the test.
abbrev pub any : {A : Type 0} → (A → Bool) → List A → Bool
any p [] = false
any p (x ∷ xs) = if p x then true else any p xs

pub any-first_match :
    {A : Type 0} (p : A → Bool) (xs : List A) (x : A) → first_match p xs ≡ some x → any p xs ≡ true
any-first_match p [] x h = absurd (ground arith)
any-first_match p (y ∷ xs) x h = elim (Bool-cases (p y)) [
  | inl yes_y ↦ ground arith
  | inr no_y ↦ ground (arith, any-first_match p xs x)
]

pub any-length :
    {A : Type 0} (p : A → Bool) (xs : List A) → any p xs ≡ ltb_ℤ (pos 0) (pos (length (keep p xs)))
any-length p [] = refl
any-length p (y ∷ xs) = elim (Bool-cases (p y)) [
  | inl yes_y ↦ ground arith
  | inr no_y ↦ ground (arith, any-length p xs)
]

pub any_mono :
    {A : Type 0} (p q : A → Bool)
    → ((x : A) → p x ≡ true → q x ≡ true)
    → (xs : List A) → any p xs ≡ true
    → any q xs ≡ true
any_mono p q sub [] h = h
any_mono p q sub (x ∷ xs) h = elim (Bool-cases (p x)) [
  | inl yes_x ↦ rw (sub x yes_x)
  | inr no_x ↦ ground (arith, any_mono p q sub xs)
]

-- For a user with one default tenant: the membership in it is the primary one, and no other.
abbrev pub only_primary : Collation → ℤ → Text → UserTenant → UserTenant
only_primary c id tag m =
    if m.user_id ==ℤ id then record m { is_primary = c.same m.tenant_tag tag } else m

abbrev pub cleared : ℤ → UserTenant → UserTenant
cleared id m = if m.user_id ==ℤ id then record m { is_primary = false } else m

-- Clearing all of a user's memberships and then setting one is `only_primary`.
pub clear_and_set :
    (c : Collation) (id : ℤ) (tag : Text) (ms : List UserTenant)
    → update_rows
        (has_member c id tag)
        (λ m. record m { is_primary = true })
        (update_rows (λ m. m.user_id ==ℤ id) (λ m. record m { is_primary = false }) ms)
      ≡ map (only_primary c id tag) ms
clear_and_set c id tag [] = refl
clear_and_set c id tag (m ∷ ms) = elim (Bool-cases (m.user_id ==ℤ id)) [
  | inl mine ↦ elim (Bool-cases (c.same m.tenant_tag tag)) [
    | inl this ↦ ground (arith, clear_and_set c id tag ms)
    | inr that ↦ ground (arith, clear_and_set c id tag ms)
  ]
  | inr foreign ↦ ground (arith, clear_and_set c id tag ms)
]

-- Behind it a primary membership of the user is one in that tenant.
pub only_primary-first :
    (c : Collation) (id : ℤ) (tag : Text) (ms : List UserTenant) (m : UserTenant)
    → first_match (has_primary id) (map (only_primary c id tag) ms) ≡ some m
    → c.same m.tenant_tag tag ≡ true
only_primary-first c id tag [] m h = absurd (ground arith)
only_primary-first c id tag (x ∷ ms) m h = elim (Bool-cases (x.user_id ==ℤ id)) [
  | inl mine ↦ elim (Bool-cases (c.same x.tenant_tag tag)) [
    | inl this ↦ ground arith
    | inr that ↦ ground (arith, only_primary-first c id tag ms m)
  ]
  | inr foreign ↦ ground (arith, only_primary-first c id tag ms m)
]

-- A primary membership in a tenant.
abbrev pub is_default : Collation → ℤ → Text → UserTenant → Bool
is_default c id tag m = has_primary id m && c.same m.tenant_tag tag

-- A first match that is a membership in the tenant is one of its memberships.
pub any-first_match_trans :
    (c : Collation) (id : ℤ) (tag : Text) (ms : List UserTenant) (m : UserTenant)
    → first_match (has_primary id) ms ≡ some m
    → c.same m.tenant_tag tag ≡ true
    → any (is_default c id tag) ms ≡ true
any-first_match_trans c id tag [] m h same = absurd (ground arith)
any-first_match_trans c id tag (x ∷ ms) m h same = elim (Bool-cases (has_primary id x)) [
  | inl primary ↦ ground arith
  | inr other ↦ ground (arith, any-first_match_trans c id tag ms m)
]

pub only_primary-any :
    (c : Collation) (id : ℤ) (tag tag' : Text) (ms : List UserTenant)
    → any (is_default c id tag') (map (only_primary c id tag) ms) ≡ true
    → c.same tag' tag ≡ true
only_primary-any c id tag tag' [] h = absurd (ground arith)
only_primary-any c id tag tag' (x ∷ ms) h = elim (Bool-cases (x.user_id ==ℤ id)) [
  | inl mine ↦ ground (
    arith,
    c.same_sym x.tenant_tag tag',
    c.same_trans tag' x.tenant_tag tag,
    only_primary-any c id tag tag' ms,
  )
  | inr foreign ↦ ground (arith, only_primary-any c id tag tag' ms)
]

pub any-snoc :
    {A : Type 0} (p : A → Bool) (xs : List A) (x : A)
    → any p (xs ++ x ∷ []) ≡ (if p x then true else any p xs)
any-snoc p [] x = refl
any-snoc p (y ∷ xs) x = ground (arith, any-snoc p xs x)

pub any-none :
    {A : Type 0} (p : A → Bool) (xs : List A) → first_match p xs ≡ none → any p xs ≡ false
any-none p [] h = refl
any-none p (y ∷ xs) h = ground (arith, any-none p xs)

-- Behind a clearing no tenant is the user's default.
pub cleared-any :
    (c : Collation) (id : ℤ) (tag : Text) (ms : List UserTenant)
    → any (is_default c id tag) (map (cleared id) ms) ≡ false
cleared-any c id tag [] = refl
cleared-any c id tag (m ∷ ms) = ground (arith, cleared-any c id tag ms)
