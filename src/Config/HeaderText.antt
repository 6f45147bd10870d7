-- ===== src/Config/HeaderText.antt =====
-- `_parse_headers` against a printer of header lists.
use asyncio_otlp_client.Base.{
  ℕ, ◌≡◌, refl, false, none, List, [], ◌∷◌, ◌++◌, Str, is_empty, ok, arith, ap, ◌∙◌, ◌==◌, All,
  Bool-cases, All-append, inl, inr,
}
use asyncio_otlp_client.Base.Dict.{lookup, insert}
use asyncio_otlp_client.Base.Strings.{
  is_space, strip, drop_while, drop_end_while, split, Without, split-append, split_single,
  partition-append,
}
use asyncio_otlp_client.Config.Defs.{Headers}
use asyncio_otlp_client.Config.Parse.{header_entry, parse_pairs, parse_headers}
use mathlib.Core.List.{append_assoc}

-- the `k=v,k=v` form
abbrev entry : Str × Str → Str
entry (k, v) = k ++ (b'=' ∷ v)

abbrev pub print_headers : Headers → Str
print_headers [] = []
print_headers (e ∷ []) = entry e
print_headers (e ∷ f ∷ es) = entry e ++ (b',' ∷ print_headers (f ∷ es))

-- A text that holds a character which is no space is not blank.
drop_while-keeps :
    (s t : Str) (c : ℕ)
    → is_space c ≡ false
    → (s' : Str) × (drop_while is_space (s ++ (c ∷ t)) ≡ s' ++ (c ∷ t))
unfolding drop_while
drop_while-keeps [] t c h = ([], rw h)
drop_while-keeps (d ∷ s) t c h = elim (Bool-cases (is_space d)) [
  | inl e ↦ let (s', q) = drop_while-keeps s t c h in (s', rw e q)
  | inr e ↦ (d ∷ s, rw e)
]

drop_end_while-keeps :
    (s t : Str) (c : ℕ)
    → is_space c ≡ false
    → is_empty (drop_end_while is_space (s ++ (c ∷ t))) ≡ false
unfolding drop_end_while
drop_end_while-keeps [] t c h = ground (arith, h)
drop_end_while-keeps (d ∷ s) t c h = ground (arith, drop_end_while-keeps s t c h)

equals_not_space : is_space b'=' ≡ false
unfolding is_space
equals_not_space = refl

entry_not_blank : (k v : Str) → is_empty (strip (k ++ (b'=' ∷ v))) ≡ false
unfolding strip
entry_not_blank k v =
    let (s', e) = drop_while-keeps k v b'=' equals_not_space in
    rw e (drop_end_while-keeps s' v b'=' equals_not_space)

insert-new : (k v : Str) (d : Headers) → lookup k d ≡ none → insert k v d ≡ d ++ ((k, v) ∷ [])
unfolding insert lookup
insert-new k v [] h = refl
insert-new k v ((j, w) ∷ d) h = ground (arith, insert-new k v d)

-- The keys are new, one after the other.
abbrev pub AreNew : Headers → Headers → Type 0
AreNew d [] = Unit
AreNew d ((k, v) ∷ es) = (lookup k d ≡ none) × AreNew (d ++ ((k, v) ∷ [])) es

module _ (unquote : Str → Str) where
  -- A key or a value that the form can carry: no comma, no spaces around it, nothing quoted.
  pub record IsPlain (s : Str) : Type 0 where
    pub no_comma : Without b',' s
    pub stripped : strip s ≡ s
    pub unquoted : unquote s ≡ s

  abbrev pub IsPlainEntry : Str × Str → Type 0
  IsPlainEntry (k, v) = IsPlain k × Without b'=' k × IsPlain v

  parse_pair :
      (k v : Str) (es : List Str) (d : Headers)
      → IsPlainEntry (k, v)
      → lookup k d ≡ none
      → parse_pairs unquote (entry (k, v) ∷ es) d ≡ parse_pairs unquote es (d ++ ((k, v) ∷ []))
  unfolding parse_pairs header_entry
  parse_pair k v es d (pk, eq, pv) new = rw (entry_not_blank k v) (
      simp (
        partition-append b'=' k v eq,
        pk.stripped,
        pv.stripped,
        pk.unquoted,
        pv.unquoted,
        insert-new k v d new,
      ))

  Without-append : (c : ℕ) (s t : Str) → Without c s → Without c t → Without c (s ++ t)
  Without-append c s t hs ht = All-append (λ d. (d == c) ≡ false) s t hs ht

  entry-Without : (k v : Str) → IsPlainEntry (k, v) → Without b',' (entry (k, v))
  entry-Without k v (pk, eq, pv) = Without-append b',' k (b'=' ∷ v) pk.no_comma (refl, pv.no_comma)

  parse_pairs-nil : (d : Headers) → parse_pairs unquote [] d ≡ ok d
  unfolding parse_pairs
  parse_pairs-nil d = refl

  parse_pairs-print :
      (e : Str × Str) (es d : Headers)
      → All IsPlainEntry (e ∷ es)
      → AreNew d (e ∷ es)
      → parse_pairs unquote (split b',' (print_headers (e ∷ es))) d ≡ ok (d ++ (e ∷ es))
  parse_pairs-print (k, v) [] d plain new =
      rw (split_single b',' (entry (k, v)) (entry-Without k v plain.0))
        (parse_pair k v [] d plain.0 new.0 ∙ parse_pairs-nil (d ++ ((k, v) ∷ [])))
  parse_pairs-print (k, v) (f ∷ es) d plain new =
      rw (split-append b',' (entry (k, v)) (print_headers (f ∷ es)) (entry-Without k v plain.0)) (
        parse_pair k v _ d plain.0 new.0
        ∙ parse_pairs-print f es (d ++ ((k, v) ∷ [])) plain.1 new.1
        ∙ ap ok (append_assoc d ((k, v) ∷ []) (f ∷ es)))

  -- A header list with distinct keys and plain texts, printed in the `k=v,k=v` form, is read back as
  -- it was, in its order; a value may hold further `=` signs.
  pub parse_headers-print_headers :
      (e : Str × Str) (es : Headers)
      → All IsPlainEntry (e ∷ es)
      → AreNew [] (e ∷ es)
      → parse_headers unquote (print_headers (e ∷ es)) ≡ ok (e ∷ es)
  unfolding parse_headers
  parse_headers-print_headers e es plain new = parse_pairs-print e es [] plain new
