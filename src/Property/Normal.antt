-- ===== src/Property/Normal.antt =====
-- What normalizeValue leaves, and the values that a property of the type BOOL accepts.
use mathlib.Core.List.{reverse, reverse-append, reverse-reverse}
use gd2fuse.Base.{
  ℕ, ◌≡◌, ◌≢◌, refl, sym, ap, ◌∙◌, ◌⊎◌, inl, inr, true, false, some, [], ◌∷◌, ◌++◌, nat_eq, list_eq,
  arith, Text, tolower, to_lower, Bool-cases, codes, All,
}
use gd2fuse.Errno.{einval}
use gd2fuse.Node.{Timespec}
use gd2fuse.Outcome.{system_error}
use gd2fuse.Property.Values.{refused-eq}
use gd2fuse.Property.{
  Casts, bool_type, check_validity, Property, Store, normalize_value, set_value, trim_front,
  is_blank,
}

abbrev IsLower : ℕ → Type 0
IsLower c = tolower c ≡ c

tolower-IsLower : (c : ℕ) → IsLower (tolower c)
unfolding tolower
tolower-IsLower c = ground arith

to_lower-IsLower : (s : Text) → All IsLower (to_lower s)
to_lower-IsLower [] = tt
to_lower-IsLower (c ∷ s) = (tolower-IsLower c, to_lower-IsLower s)

to_lower_id : (s : Text) → All IsLower s → to_lower s ≡ s
to_lower_id [] h = refl
to_lower_id (c ∷ s) h = rw (h.0, to_lower_id s h.1) refl

trim_front-All : (P : ℕ → Type 0) (s : Text) → All P s → All P (trim_front s)
unfolding trim_front
trim_front-All P [] h = tt
trim_front-All P (c ∷ s) h = elim (Bool-cases (is_blank c)) [
  | inl p ↦ rw p (trim_front-All P s h.1)
  | inr p ↦ rw p h
]

append-All : (P : ℕ → Type 0) (s t : Text) → All P s → All P t → All P (s ++ t)
append-All P [] t h g = g
append-All P (c ∷ s) t h g = (h.0, append-All P s t h.1 g)

reverse-cons : (c : ℕ) (s : Text) → reverse (c ∷ s) ≡ reverse s ++ c ∷ []
reverse-cons c s = reverse-append (c ∷ []) s

reverse-All : (P : ℕ → Type 0) (s : Text) → All P s → All P (reverse s)
reverse-All P [] h = tt
reverse-All P (c ∷ s) h =
    rw (reverse-cons c s) (append-All P (reverse s) (c ∷ []) (reverse-All P s h.1) (h.0, tt))

-- Blanks in front of a text that is not blank at its end.
trim_front-append :
    (s : Text) (c : ℕ)
    → is_blank c ≡ false
    → (t : Text) × (trim_front (s ++ c ∷ []) ≡ t ++ c ∷ [])
      × (trim_front (t ++ c ∷ []) ≡ t ++ c ∷ [])
unfolding trim_front
trim_front-append [] c h = ([], rw h refl, rw h refl)
trim_front-append (a ∷ s) c h = elim (Bool-cases (is_blank a)) [
  | inl p ↦ rw p (trim_front-append s c h)
  | inr p ↦ (a ∷ s, rw p refl, rw p refl)
]

-- A trimmed text: empty, or with no blank in front.
trim_front-cases :
    (s : Text)
    → (trim_front s ≡ []) ⊎ ((c : ℕ) × (t : Text) × (trim_front s ≡ c ∷ t) × (is_blank c ≡ false))
unfolding trim_front
trim_front-cases [] = inl refl
trim_front-cases (c ∷ s) = elim (Bool-cases (is_blank c)) [
  | inl p ↦ rw p (trim_front-cases s)
  | inr p ↦ rw p (inr (c, s, refl, p))
]

trim_front-stays : (c : ℕ) (t : Text) → is_blank c ≡ false → trim_front (c ∷ t) ≡ c ∷ t
unfolding trim_front
trim_front-stays c t h = rw h refl

abbrev trim : Text → Text
trim s = reverse (trim_front (reverse (trim_front s)))

reverse-snoc : (u : Text) (c : ℕ) → reverse (u ++ c ∷ []) ≡ c ∷ reverse u
reverse-snoc u c = reverse-append u (c ∷ [])

-- A text that begins with no blank, and ends with none.
trim-fixed :
    (c : ℕ) (u : Text)
    → is_blank c ≡ false
    → trim_front (u ++ c ∷ []) ≡ u ++ c ∷ []
    → trim (c ∷ reverse u) ≡ c ∷ reverse u
trim-fixed c u h again =
    ap (λ (x : Text). reverse (trim_front (reverse x))) (trim_front-stays c (reverse u) h)
    ∙ ap (λ (x : Text). reverse (trim_front x))
        (reverse-cons c (reverse u) ∙ ap (λ (x : Text). x ++ c ∷ []) (reverse-reverse u))
    ∙ ap reverse again
    ∙ reverse-snoc u c

trim-shape :
    (s : Text) (c : ℕ) (t u : Text)
    → trim_front s ≡ c ∷ t
    → trim_front (reverse t ++ c ∷ []) ≡ u ++ c ∷ []
    → trim s ≡ c ∷ reverse u
trim-shape s c t u e f =
    ap (λ (x : Text). reverse (trim_front (reverse x))) e
    ∙ ap (λ (x : Text). reverse (trim_front x)) (reverse-cons c t)
    ∙ ap reverse f
    ∙ reverse-snoc u c

trim-nil : trim [] ≡ []
unfolding trim_front
trim-nil = refl

trim-empty : (s : Text) → trim_front s ≡ [] → trim s ≡ []
unfolding trim_front
trim-empty s e = ap (λ (x : Text). reverse (trim_front (reverse x))) e

trim-trim : (s : Text) → trim (trim s) ≡ trim s
trim-trim s = elim (trim_front-cases s) [
  | inl e ↦ ap trim (trim-empty s e) ∙ trim-nil ∙ sym (trim-empty s e)
  | inr (c, t, e, h) ↦
      let (u, first, again) = trim_front-append (reverse t) c h in
      let shape = trim-shape s c t u e first in ap trim shape ∙ trim-fixed c u h again ∙ sym shape
]

-- Normalising twice is normalising once: writing back the text that was read changes nothing.
pub normalize_value-normalize_value :
    (s : Text) → normalize_value (normalize_value s) ≡ normalize_value s
unfolding normalize_value
normalize_value-normalize_value s =
    ap trim (
      to_lower_id _ (
        reverse-All IsLower _ (
          trim_front-All IsLower _
            (reverse-All IsLower _ (trim_front-All IsLower _ (to_lower-IsLower s))))))
    ∙ trim-trim (to_lower s)

check-bool : (lib : Casts) (v : Text) → check_validity lib bool_type v ≡ lib.cast_bool v
unfolding check_validity
check-bool lib v = refl

-- A property of the type BOOL refuses each text that is not "0" or "1" when it is in lower case and
-- trimmed, if the library's conversion to bool accepts these two alone: also "true" and "false",
-- which are the defaults of the properties of that type.
pub set_value-bool_words :
    (lib : Casts) (now : Timespec) (p : Property) (val : Text) (st : Store)
    → ((s : Text) → lib.cast_bool s ≡ true → (s ≡ codes "0") ⊎ (s ≡ codes "1"))
    → p.upstream.type ≡ bool_type
    → normalize_value val ≢ codes "0"
    → normalize_value val ≢ codes "1"
    → set_value lib now p val st ≡ (some (system_error einval ""), st)
set_value-bool_words lib now p val st only is_bool zero one =
    elim (Bool-cases (lib.cast_bool (normalize_value val))) [
      | inl yes' ↦ elim (only (normalize_value val) yes') [
        | inl z ↦ absurd (zero z)
        | inr o ↦ absurd (one o)
      ]
      | inr refused ↦
          refused-eq lib now p val st (rw is_bool (check-bool lib (normalize_value val) ∙ refused))
    ]
