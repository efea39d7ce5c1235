-- ===== src/Egress/Decode/Slashes.antt =====
-- Decoding neither makes nor removes a separator of a path that hides none.
use vouchr.Base.{
  ℕ, zero, suc, ◌+◌, ◌-◌, ◌*◌, ◌≤◌, ◌≡◌, refl, sym, ap, ◌∙◌, ◌≢◌, inl, inr, Bool, true, false, ◌&&◌,
  List, [], ◌∷◌, Option, none, some, arith, nat_beq, nat_beq_iff, leb, ltb, if◌then◌else◌,
  Bool-cases, Option-cases,
}
use vouchr.Base.Lists.{count}
use vouchr.Egress.{
  has_encoded_separator, starts_separator, is_separator_digits, decode_uri_component, decode_from,
  Mode, plain, at_escape, first_digit, second_digit, Expected, ByteResult, whole, partial,
  malformed, first_byte, next_byte, byte_of, hex_value, prepend, has_ambiguous_path_encoding,
}
use vouchr.Egress.Decode.{decoded, decoded-IsRouted}

abbrev pub slashes : List ℕ → ℕ
slashes s = count (λ x. nat_beq x 47) s

-- The sequence stands for a code point of 128 at least.
abbrev IsWide : Expected → Type 0
IsWide e = (128 ≤ e.low) × ((e.more ≡ 0) → 2 ≤ e.bits) × (2 ≤ e.bits * 64 + (e.low - 128))

abbrev Ready : Mode → List ℕ → Type 0
Ready plain s = has_encoded_separator s ≡ false
Ready (at_escape e) s = IsWide e × (has_encoded_separator s ≡ false)
Ready (first_digit none) s = has_encoded_separator (37 ∷ s) ≡ false
Ready (first_digit (some e)) s = IsWide e × (has_encoded_separator s ≡ false)
Ready (second_digit none h) s =
    (c : ℕ) × (hex_value c ≡ some h) × (has_encoded_separator (37 ∷ c ∷ s) ≡ false)
Ready (second_digit (some e) h) s = IsWide e × (has_encoded_separator s ≡ false)

-- What a byte gives: a code point that is no slash, or a wide sequence.
abbrev Good : ByteResult → Type 0
Good (whole b) = b ≢ 47
Good (partial e) = IsWide e
Good malformed = Unit {0}

Good-if :
    (c : Bool) (x y : ByteResult)
    → (c ≡ true → Good x)
    → (c ≡ false → Good y)
    → Good (if c then x else y)
Good-if true x y p q = p refl
Good-if false x y p q = q refl

first_byte-Good : (b : ℕ) → b ≢ 47 → Good (first_byte b)
unfolding first_byte
first_byte-Good b h =
    Good-if (ltb b 128) _ _ (λ e. h)
      (λ e.
        Good-if (leb 194 b && leb b 223) _ _ (λ t. (omega arith, (λ z. ground arith), ground arith))
          (λ u.
            Good-if (leb 224 b && leb b 239) _ _
              (λ t. (ground arith, (λ z. absurd (ground arith)), ground arith))
              (λ v.
                Good-if (leb 240 b && leb b 244) _ _
                  (λ t. (ground arith, (λ z. absurd (ground arith)), ground arith)) (λ w. tt))))

next_byte-Good : (e : Expected) (b : ℕ) → IsWide e → Good (next_byte e b)
unfolding next_byte
next_byte-Good e b w =
    Good-if (leb e.low b && leb b e.high) _ _
      (λ t.
        Good-if (nat_beq e.more 0) _ _ (λ z. ground (arith, w.0, w.1))
          (λ z. (omega arith, (λ y. ground (arith, w.0, w.2)), ground (arith, w.0, w.2))))
      (λ f. tt)

-- An octet that is written with hexadecimal digits and is a slash is an encoded separator.
hex-slash :
    (c l h v : ℕ)
    → hex_value c ≡ some h
    → hex_value l ≡ some v
    → is_separator_digits c l ≡ false
    → h * 16 + v ≢ 47
unfolding hex_value
hex-slash c l h v p q n e = ground arith

hex_value-ne : (c h : ℕ) → hex_value c ≡ some h → nat_beq c 47 ≡ false
unfolding hex_value
hex_value-ne c h e = ground arith

slashes-prepend :
    (b : ℕ) (r : Option (List ℕ)) (d : List ℕ) (n : ℕ)
    → prepend b r ≡ some d
    → ((t : List ℕ) → r ≡ some t → slashes t ≡ n)
    → slashes d ≡ (if nat_beq b 47 then 1 else 0) + n
unfolding prepend
slashes-prepend b none d n e h = absurd (ground arith)
slashes-prepend b (some t) d n e h =
    let same : b ∷ t ≡ d = ground arith in
    sym (ap slashes same) ∙ ap (λ m. (if nat_beq b 47 then 1 else 0) + m) (h t refl)

slashes_skip : (c : ℕ) (s : List ℕ) → nat_beq c 47 ≡ false → slashes (c ∷ s) ≡ slashes s
slashes_skip c s e = rw e (omega arith)

escape-ne-slash : (c : ℕ) → nat_beq c 37 ≡ true → nat_beq c 47 ≡ false
escape-ne-slash c e = ground arith

slashes-digit : (c h : ℕ) (s : List ℕ) → hex_value c ≡ some h → slashes (c ∷ s) ≡ slashes s
slashes-digit c h s e = slashes_skip c s (hex_value-ne c h e)

slashes-byte :
    (b : ByteResult) (s d : List ℕ)
    → Good b
    → ((t : List ℕ) → decode_from plain s ≡ some t → slashes t ≡ slashes s)
    → ((f : Expected) → IsWide f → decode_from (at_escape f) s ≡ some d → slashes d ≡ slashes s)
    → ◌≡◌ {A = Option (List ℕ)}
        (elim b [
          | whole c ↦ prepend c (decode_from plain s)
          | partial f ↦ decode_from (at_escape f) s
          | malformed ↦ none
        ])
        (some d)
    → slashes d ≡ slashes s
slashes-byte (whole c) s d ne here wide e =
    let ne' : nat_beq c 47 ≡ false = ground arith in
    let found = slashes-prepend c (decode_from plain s) d (slashes s) e here in
    ground (arith, found)
slashes-byte (partial f) s d w here wide e = wide f w e
slashes-byte malformed s d w here wide e = absurd (ground arith)

separator-tail :
    (c : ℕ) (s : List ℕ) → has_encoded_separator (c ∷ s) ≡ false → has_encoded_separator s ≡ false
unfolding has_encoded_separator
separator-tail c s h = ground arith

separator-digits :
    (c l : ℕ) (s : List ℕ)
    → has_encoded_separator (37 ∷ c ∷ l ∷ s) ≡ false
    → is_separator_digits c l ≡ false
unfolding has_encoded_separator starts_separator
separator-digits c l s h = ground arith

slashes-decode_from :
    (m : Mode) (s d : List ℕ) → Ready m s → decode_from m s ≡ some d → slashes d ≡ slashes s
unfolding decode_from byte_of
slashes-decode_from plain [] d r e = ground arith
slashes-decode_from (at_escape x) [] d r e = absurd (ground arith)
slashes-decode_from (first_digit x) [] d r e = absurd (ground arith)
slashes-decode_from (second_digit x h) [] d r e = absurd (ground arith)
slashes-decode_from plain (c ∷ s) d r e = elim (Bool-cases (nat_beq c 37)) [
  | inl escape ↦
      let is : c ≡ 37 = (nat_beq_iff c 37).0 escape in
      let ready : has_encoded_separator (37 ∷ s) ≡ false = rw is at r in
      slashes-decode_from (first_digit none) s d ready (rw (escape, decode_from) at e)
      ∙ sym (slashes_skip c s (escape-ne-slash c escape))
  | inr kept ↦
      slashes-prepend c (decode_from plain s) d (slashes s) (rw (kept, decode_from) at e)
        (λ t q. slashes-decode_from plain s t (separator-tail c s r) q)
]
slashes-decode_from (at_escape x) (c ∷ s) d (w, r) e = elim (Bool-cases (nat_beq c 37)) [
  | inl escape ↦
      slashes-decode_from (first_digit (some x)) s d (w, separator-tail c s r)
        (rw (escape, decode_from) at e)
      ∙ sym (slashes_skip c s (escape-ne-slash c escape))
  | inr other ↦ absurd (ground arith)
]
slashes-decode_from (first_digit none) (c ∷ s) d r e = elim (Option-cases (hex_value c)) [
  | inl bad ↦ absurd (ground arith)
  | inr h ↦
      slashes-decode_from (second_digit none h.0) s d (c, h.1, r) (rw (h.1, decode_from) at e)
      ∙ sym (slashes-digit c h.0 s h.1)
]
slashes-decode_from (first_digit (some x)) (c ∷ s) d (w, r) e = elim (Option-cases (hex_value c)) [
  | inl bad ↦ absurd (ground arith)
  | inr h ↦
      slashes-decode_from (second_digit (some x) h.0) s d (w, separator-tail c s r)
        (rw (h.1, decode_from) at e)
      ∙ sym (slashes-digit c h.0 s h.1)
]
slashes-decode_from (second_digit none h) (c ∷ s) d (a, p, r) e =
    elim (Option-cases (hex_value c)) [
      | inl bad ↦ absurd (ground arith)
      | inr l ↦
          let ne = hex-slash a c h l.0 p l.1 (separator-digits a c s r) in
          let clear =
            separator-tail c s (separator-tail a (c ∷ s) (separator-tail 37 (a ∷ c ∷ s) r)) in
          slashes-byte (first_byte (h * 16 + l.0)) s d (first_byte-Good (h * 16 + l.0) ne)
            (λ t q. slashes-decode_from plain s t clear q)
            (λ f wide q. slashes-decode_from (at_escape f) s d (wide, clear) q)
            (rw (l.1, decode_from) at e)
          ∙ sym (slashes-digit c l.0 s l.1)
    ]
slashes-decode_from (second_digit (some x) h) (c ∷ s) d (w, r) e =
    elim (Option-cases (hex_value c)) [
      | inl bad ↦ absurd (ground arith)
      | inr l ↦
          slashes-byte (next_byte x (h * 16 + l.0)) s d (next_byte-Good x (h * 16 + l.0) w)
            (λ t q. slashes-decode_from plain s t (separator-tail c s r) q)
            (λ f wide q. slashes-decode_from (at_escape f) s d (wide, separator-tail c s r) q)
            (rw (l.1, decode_from) at e)
          ∙ sym (slashes-digit c l.0 s l.1)
    ]

slashes-steps :
    (k : ℕ) (p q : List ℕ)
    → ((j : ℕ) (r : List ℕ) → decoded j p ≡ some r → has_encoded_separator r ≡ false)
    → decoded k p ≡ some q
    → slashes q ≡ slashes p
unfolding decode_uri_component
slashes-steps zero p q clear e = let same : p ≡ q = ground arith in ap slashes (sym same)
slashes-steps (suc k) p q clear e = elim (Option-cases (decode_uri_component p)) [
  | inl thrown ↦ absurd (ground arith)
  | inr step ↦
      slashes-steps k step.0 q (λ j r g. clear (suc j) r (rw step.1 g)) (rw step.1 at e)
      ∙ slashes-decode_from plain p step.0 (clear 0 p refl) step.1
]

-- A path that is not ambiguous keeps its separators: decoded any number of times, it has as many
-- slashes as it had.
pub slashes-decoded :
    (path : List ℕ)
    → has_ambiguous_path_encoding path ≡ false
    → (k : ℕ) (q : List ℕ) → decoded k path ≡ some q
    → slashes q ≡ slashes path
slashes-decoded path h k q e = slashes-steps k path q clear e
  where
    clear : (j : ℕ) (r : List ℕ) → decoded j path ≡ some r → has_encoded_separator r ≡ false
    clear j r g =
        let found = decoded-IsRouted path h j in
        let same : found.0 ≡ r = ground (arith, found.1) in rw same at (found.2.0)
