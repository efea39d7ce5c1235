-- ===== src/Egress/Decode.antt =====
-- What is left of a path after any number of decodings.
pub mod Slashes
use vouchr.Base.{
  ℕ, zero, suc, ◌+◌, String, ◌≡◌, refl, sym, ap, ◌∙◌, inl, inr, ◌⊎◌, Bool, true, false, ◌&&◌, ◌||◌,
  List, [], ◌∷◌, Option, none, some, arith, nat_beq, nat_beq_iff, not, if◌then◌else◌, Bool-cases,
  Option-cases, ◌>>=◌,
}
use vouchr.Base.Lists.{any, count}
use vouchr.Egress.{
  has_encoded_separator, starts_separator, decode_uri_component, decode_from, plain, prepend,
  changes_routing, same_codes, ambiguous_from, has_ambiguous_path_encoding, max_path_decode_passes,
}

-- The path after a number of decodings, where none of them throws.
abbrev pub decoded : ℕ → List ℕ → Option (List ℕ)
decoded zero p = some p
decoded (suc n) p = decode_uri_component p >>= decoded n

abbrev has_escape : List ℕ → Bool
has_escape c = any (λ x. nat_beq x 37) c

same_codes-eq : (s t : List ℕ) → same_codes s t ≡ true → s ≡ t
same_codes-eq [] [] h = refl
same_codes-eq [] (b ∷ t) h = cc
same_codes-eq (a ∷ s) [] h = cc
same_codes-eq (a ∷ s) (b ∷ t) h = ground (arith, same_codes-eq s t)

decode-plain : (c : List ℕ) → has_escape c ≡ false → decode_from plain c ≡ some c
unfolding decode_from prepend
decode-plain [] h = refl
decode-plain (c ∷ s) h = ground (arith, decode-plain s)

separator-plain : (c : List ℕ) → has_escape c ≡ false → has_encoded_separator c ≡ false
unfolding has_encoded_separator starts_separator
separator-plain [] h = refl
separator-plain (c ∷ []) h = refl
separator-plain (c ∷ d ∷ []) h = ground (arith, separator-plain (d ∷ []))
separator-plain (c ∷ d ∷ e ∷ s) h = ground (arith, separator-plain (d ∷ e ∷ s))

decoded-fixed : (k : ℕ) (c : List ℕ) → decode_uri_component c ≡ some c → decoded k c ≡ some c
decoded-fixed zero c e = refl
decoded-fixed (suc k) c e = rw e (decoded-fixed k c e)

-- The path itself, or one in which nothing is read as routing.
abbrev pub IsRouted : List ℕ → List ℕ → Type 0
IsRouted p q = (has_encoded_separator q ≡ false) × ((q ≡ p) ⊎ (changes_routing q ≡ false))

fixed-IsRouted :
    (k : ℕ) (c : List ℕ)
    → has_encoded_separator c ≡ false
    → decode_uri_component c ≡ some c
    → (q : List ℕ) × (decoded k c ≡ some q) × IsRouted c q
fixed-IsRouted k c s e = (c, decoded-fixed k c e, (s, inl refl))

ambiguous_from-IsRouted :
    (n : ℕ) (c : List ℕ)
    → ambiguous_from n c ≡ false
    → (k : ℕ) → (q : List ℕ) × (decoded k c ≡ some q) × IsRouted c q
unfolding ambiguous_from
ambiguous_from-IsRouted zero c h k =
    fixed-IsRouted k c (separator-plain c h) (unfold decode_uri_component in decode-plain c h)
ambiguous_from-IsRouted (suc n) c h zero = (c, refl, (ground arith, inl refl))
ambiguous_from-IsRouted (suc n) c h (suc k) = elim (Bool-cases (has_encoded_separator c)) [
  | inl found ↦ absurd (ground arith)
  | inr clear ↦ elim (Option-cases (decode_uri_component c)) [
    | inl thrown ↦ absurd (ground arith)
    | inr step ↦ elim (Bool-cases (same_codes step.0 c)) [
      | inl same ↦ fixed-IsRouted (suc k) c clear (ground (arith, same_codes-eq step.0 c))
      | inr moved ↦
          let safe : changes_routing step.0 ≡ false = ground arith in
          let later = ambiguous_from-IsRouted n step.0 (ground arith) k in
          (
            later.0,
            rw step.1 later.1,
            (later.2.0, elim later.2.1 [ inl same ↦ inr (rw same safe) | inr routed ↦ inr routed ]),
          )
    ]
  ]
]

-- A path that is not ambiguous can be decoded any number of times: no decoding throws, none uncovers
-- an encoded separator, and each result is the path itself or has no backslash and no segment that is
-- '.' or '..'.
pub decoded-IsRouted :
    (path : List ℕ)
    → has_ambiguous_path_encoding path ≡ false
    → (k : ℕ) → (q : List ℕ) × (decoded k path ≡ some q) × IsRouted path q
unfolding has_ambiguous_path_encoding
decoded-IsRouted path h k = ambiguous_from-IsRouted max_path_decode_passes path h k
