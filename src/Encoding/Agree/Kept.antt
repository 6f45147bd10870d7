-- ===== src/Encoding/Agree/Kept.antt =====
-- Which fields `omit_empty` keeps, and which objects have none.
use asyncio_otlp_client.Base.{
  ℕ, ◌≡◌, refl, ap, ◌∙◌, Bool, true, false, ◌&&◌, not, Option, none, some, List, [], ◌∷◌, Str,
  is_empty, if◌then◌else◌, arith, ◌==◌,
}
use asyncio_otlp_client.Base.Int.{ℤ, pos, str_of_int}
use asyncio_otlp_client.Base.Int as Int
use asyncio_otlp_client.Encoding.Json.Tree.{
  Json, string, object, Members, no_members, member, Fields, items, list, each, kept, kept_members,
  omit_empty, nonzero, nonzero_int,
}
use asyncio_otlp_client.Encoding.Json.Common.{optional_string}
use asyncio_otlp_client.Encoding.Proto.Common.{no_text}
use asyncio_otlp_client.Encoding.Reader.Fields.{read_optional}
use asyncio_otlp_client.Encoding.Agree.Fields.{seen}

module _ {F : Type 0} where
  -- `omit_empty` leaves nothing.
  unfoldable pub nothing_kept : Fields F → Bool
  unfolding kept
  nothing_kept [] = true
  nothing_kept ((k, v) ∷ fs) = not (kept v) && nothing_kept fs

  is_no_members : Members F → Bool
  is_no_members no_members = true
  is_no_members (member k v ms) = false

  is_no_members-kept_members : (fs : Fields F) → is_no_members (kept_members fs) ≡ nothing_kept fs
  unfolding is_no_members kept_members nothing_kept
  is_no_members-kept_members [] = refl
  is_no_members-kept_members ((k, v) ∷ fs) = ground (arith, is_no_members-kept_members fs)

  read_members :
      {M : Type 0} (read : Json F → M) (ms : Members F) {m : M}
      → read (object ms) ≡ m
      → read_optional read (seen (object ms)) ≡ (if is_no_members ms then none else some m)
  unfolding read_optional seen kept is_no_members
  read_members read no_members e = refl
  read_members read (member k v ms) e = ap some e

  -- An object is not set if none of its fields is kept.
  pub read_object-seen :
      {M : Type 0} (read : Json F → M) (fs : Fields F) {b : Bool} {m : M}
      → nothing_kept fs ≡ b
      → read (omit_empty fs) ≡ m
      → read_optional read (seen (omit_empty fs)) ≡ (if b then none else some m)
  unfolding omit_empty
  read_object-seen read fs {m = m} h e =
      read_members read (kept_members fs) e
      ∙ ap (λ b. if b then none else some m) (is_no_members-kept_members fs ∙ h)

module _ (F : Type 0) where
  pub kept-string : (s : Str) → kept {F = F} (string s) ≡ not (is_empty s)
  unfolding kept
  kept-string [] = refl
  kept-string (c ∷ s) = refl

  pub kept-optional_string : (o : Option Str) → kept {F = F} (optional_string o) ≡ not (no_text o)
  unfolding optional_string kept
  kept-optional_string none = refl
  kept-optional_string (some s) = kept-string s

  pub kept-nonzero_int : (n : ℤ) → kept {F = F} (nonzero_int n) ≡ not (Int.is_zero n)
  unfolding kept nonzero_int
  kept-nonzero_int n = ground arith

  pub kept-nonzero : (n : ℕ) → kept {F = F} (nonzero n) ≡ not (n == 0)
  unfolding kept nonzero
  kept-nonzero n = ground arith

module _ {F : Type 0} where
  pub kept-each :
      {A : Type 0} (write : A → Json F) (xs : List A) → kept (each write xs) ≡ not (is_empty xs)
  unfolding kept list items
  kept-each write [] = refl
  kept-each write (x ∷ xs) = refl
