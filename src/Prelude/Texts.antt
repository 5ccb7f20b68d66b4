-- ===== src/Prelude/Texts.antt =====
-- Texts of the source as lists of code units, and JavaScript's insertion-ordered maps keyed by them.
use Prim.Native.Nat.{ℕ}
use Prim.Native.Char.{code}
use Prim.Native.String.{String}
use mathlib.Core.Path.{◌≡◌, refl, ap, ap₂}
use mathlib.Core.Logic.{◌≢◌, inl, inr}
use mathlib.Core.Bool.{Bool, true, false, ◌&&◌}
use mathlib.Core.Option.{Option, none, some}
use mathlib.Core.List.{List, [], ◌∷◌, ◌++◌}
use native.Mathlib.Omega.{arith}
use tflw_tests.Prelude.Tests.{◌==◌, if◌then◌else◌, eqb→eq, eqb_refl, is_some, Bool-cases}
use tflw_tests.Prelude.Lists.{any, filter}

abbrev pub Text : Type 0
Text = List ℕ

-- A literal of the source as a text.
abbrev pub codes : String → Text
codes String.[] = []
codes (String.◌∷◌ c s) = code c ∷ codes s

unfoldable pub text_eq : Text → Text → Bool
text_eq [] [] = true
text_eq [] (_ ∷ _) = false
text_eq (_ ∷ _) [] = false
text_eq (a ∷ s) (b ∷ t) = (a == b) && text_eq s t

pub text_eq→eq : (s t : Text) → text_eq s t ≡ true → s ≡ t
unfolding text_eq
text_eq→eq [] [] h = refl
text_eq→eq [] (_ ∷ _) h = cc
text_eq→eq (_ ∷ _) [] h = cc
text_eq→eq (a ∷ s) (b ∷ t) h = ap₂ ◌∷◌ (eqb→eq a b (ground arith)) (text_eq→eq s t (ground arith))

pub text_eq_refl : (s : Text) → text_eq s s ≡ true
unfolding text_eq
text_eq_refl [] = refl
text_eq_refl (a ∷ s) = ground (arith, eqb_refl a, text_eq_refl s)

-- `.startsWith`, the prefix last.
unfoldable pub starts_with : Text → Text → Bool
starts_with s [] = true
starts_with [] (_ ∷ _) = false
starts_with (a ∷ s) (b ∷ p) = (a == b) && starts_with s p

-- `.includes` on an array of texts.
abbrev pub includes : List Text → Text → Bool
includes xs k = any (text_eq k) xs

abbrev pub Map {ℓ} : Type ℓ → Type ℓ
Map V = List (Text × V)

module _ {ℓ} {V : Type ℓ} where
  abbrev pub keys : Map V → List Text
  keys [] = []
  keys ((k, v) ∷ m) = k ∷ keys m

  unfoldable pub lookup : Text → Map V → Option V
  lookup k [] = none
  lookup k ((j, v) ∷ m) = if text_eq k j then some v else lookup k m

  -- `.set`: a key that is there keeps its place, a new one goes to the end.
  unfoldable pub insert : Text → V → Map V → Map V
  insert k v [] = (k, v) ∷ []
  insert k v ((j, w) ∷ m) = if text_eq k j then (j, v) ∷ m else (j, w) ∷ insert k v m

  -- `.delete`, of every pair of the key.
  unfoldable pub remove : Text → Map V → Map V
  remove k [] = []
  remove k ((j, w) ∷ m) = let rest = remove k m in if text_eq k j then rest else (j, w) ∷ rest

pub text_eq_sym : (s t : Text) → text_eq s t ≡ text_eq t s
unfolding text_eq
text_eq_sym [] [] = refl
text_eq_sym [] (_ ∷ _) = refl
text_eq_sym (_ ∷ _) [] = refl
text_eq_sym (a ∷ s) (b ∷ t) = ground (arith, text_eq_sym s t)

pub text_eq_ne : (s t : Text) → text_eq s t ≡ false → s ≢ t
text_eq_ne s t h e = cc (text_eq_refl s, e)

-- Equal keys compare alike with a third.
pub text_eq_subst : (s t u : Text) → text_eq s t ≡ true → text_eq s u ≡ text_eq t u
text_eq_subst s t u h = ap (λ x. text_eq x u) (text_eq→eq s t h)

pub text_eq_join : (s t u : Text) → text_eq s t ≡ true → text_eq s u ≡ true → text_eq t u ≡ true
text_eq_join s t u h k = cc (ap (λ x. text_eq x u) (text_eq→eq s t h))

module _ {ℓ} {V : Type ℓ} where
  pub lookup-insert :
      (k j : Text) (v : V) (m : Map V)
      → lookup j (insert k v m) ≡ (if text_eq j k then some v else lookup j m)
  unfolding lookup insert
  lookup-insert k j v [] = refl
  lookup-insert k j v ((i, w) ∷ m) = elim (Bool-cases (text_eq k i)) [
    | inl e ↦ rw (e) (ground (arith, ap (text_eq j) (text_eq→eq k i e)))
    | inr e ↦ rw (e) (ground (arith, lookup-insert k j v m, text_eq_join j k i))
  ]

  pub lookup-remove :
      (k j : Text) (m : Map V) → lookup j (remove k m) ≡ (if text_eq j k then none else lookup j m)
  unfolding lookup remove
  lookup-remove k j [] = ground arith
  lookup-remove k j ((i, w) ∷ m) = elim (Bool-cases (text_eq k i)) [
    | inl e ↦ rw (e) (ground (arith, lookup-remove k j m, ap (text_eq j) (text_eq→eq k i e)))
    | inr e ↦ rw (e) (ground (arith, lookup-remove k j m, text_eq_join j k i))
  ]

  -- A key is listed exactly when it has a value.
  pub includes-keys : (k : Text) (m : Map V) → includes (keys m) k ≡ is_some (lookup k m)
  unfolding lookup is_some
  includes-keys k [] = refl
  includes-keys k ((j, v) ∷ m) = ground (arith, includes-keys k m)

  pub keys-insert :
      (k : Text) (v : V) (m : Map V)
      → keys (insert k v m) ≡ (if includes (keys m) k then keys m else keys m ++ k ∷ [])
  unfolding insert
  keys-insert k v [] = refl
  keys-insert k v ((j, w) ∷ m) = ground (arith, keys-insert k v m)

pub starts_with_self : (s t : Text) → starts_with (s ++ t) s ≡ true
unfolding starts_with
starts_with_self [] t = refl
starts_with_self (a ∷ s) t = ground (arith, eqb_refl a, starts_with_self s t)

pub starts_with→append : (s p : Text) → starts_with s p ≡ true → (t : Text) × (s ≡ p ++ t)
unfolding starts_with
starts_with→append s [] h = (s, refl)
starts_with→append [] (_ ∷ _) h = cc
starts_with→append (a ∷ s) (b ∷ p) h =
    let (t, e) = starts_with→append s p (ground arith) in (t, ap₂ ◌∷◌ (eqb→eq a b (ground arith)) e)

-- `.split(c)` at a single code unit, and `.join(sep)`.
extend : ℕ → List Text → List Text
extend a [] = (a ∷ []) ∷ []
extend a (w ∷ ws) = (a ∷ w) ∷ ws

unfoldable pub split : ℕ → Text → List Text
unfolding extend
split c [] = [] ∷ []
split c (a ∷ s) = let rest = split c s in if a == c then [] ∷ rest else extend a rest

unfoldable pub join : Text → List Text → Text
join sep [] = []
join sep (w ∷ []) = w
join sep (w ∷ v ∷ ws) = w ++ sep ++ join sep (v ∷ ws)

pub split-ne-nil : (c : ℕ) (s : Text) → split c s ≢ []
unfolding split
split-ne-nil c [] = λ h. cc
split-ne-nil c (a ∷ s) = ground (arith, split-ne-nil c s)

join-nil-cons : (sep : Text) (ws : List Text) → ws ≢ [] → join sep ([] ∷ ws) ≡ sep ++ join sep ws
unfolding join
join-nil-cons sep [] h = absurd (h refl)
join-nil-cons sep (w ∷ ws) h = refl

join-extend :
    (sep : Text) (a : ℕ) (ws : List Text) → ws ≢ [] → join sep (extend a ws) ≡ a ∷ join sep ws
unfolding join extend
join-extend sep a [] h = absurd (h refl)
join-extend sep a (w ∷ []) h = refl
join-extend sep a (w ∷ v ∷ ws) h = refl

-- Joining the pieces of a split gives the text back.
pub join-split : (c : ℕ) (s : Text) → join (c ∷ []) (split c s) ≡ s
unfolding split
join-split c [] = unfold join in refl
join-split c (a ∷ s) = elim (Bool-cases (a == c)) [
  | inl e ↦
      rw (e, join-nil-cons (c ∷ []) (split c s) (split-ne-nil c s), join-split c s, eqb→eq a c e)
        refl
  | inr e ↦ rw (e, join-extend (c ∷ []) a (split c s) (split-ne-nil c s), join-split c s) refl
]

uncons : (ws : List Text) → ws ≢ [] → (w : Text) × (vs : List Text) × (ws ≡ w ∷ vs)
uncons [] h = absurd (h refl)
uncons (w ∷ vs) h = (w, vs, refl)

-- A text that holds the separator falls into two pieces at least.
pub split-two :
    (c : ℕ) (s : Text)
    → any (λ a. a == c) s ≡ true
    → (w v : Text) × (vs : List Text) × (split c s ≡ w ∷ v ∷ vs)
unfolding split
split-two c [] h = cc
split-two c (a ∷ s) h = elim (Bool-cases (a == c)) [
  | inl e ↦
      let (v, vs, q) = uncons (split c s) (split-ne-nil c s) in ([], v, vs, rw e (ap ([] ∷◌) q))
  | inr e ↦
      let (w, v, vs, q) = split-two c s (rw e at h) in
      (a ∷ w, v, vs, unfold extend in rw e (ap (extend a) q))
]

extend-append : (a : ℕ) (ws vs : List Text) → ws ≢ [] → extend a (ws ++ vs) ≡ extend a ws ++ vs
unfolding extend
extend-append a [] vs h = absurd (h refl)
extend-append a (w ∷ ws) vs h = refl

-- A separator between two texts is where the pieces of one end and those of the other begin.
pub split-append : (c : ℕ) (s t : Text) → split c (s ++ c ∷ t) ≡ split c s ++ split c t
unfolding split
split-append c [] t = rw (eqb_refl c) refl
split-append c (a ∷ s) t = elim (Bool-cases (a == c)) [
  | inl e ↦ rw (e, split-append c s t) refl
  | inr e ↦ rw (e, split-append c s t) (extend-append a (split c s) (split c t) (split-ne-nil c s))
]

-- A text without the separator is its only piece.
pub split-none : (c : ℕ) (s : Text) → any (λ a. a == c) s ≡ false → split c s ≡ s ∷ []
unfolding split
split-none c [] h = refl
split-none c (a ∷ s) h = elim (Bool-cases (a == c)) [
  | inl e ↦ cc (h, e)
  | inr e ↦ rw (e, split-none c s (rw e at h)) (unfold extend in refl)
]

-- A filter keeps the texts that pass.
pub includes-filter :
    (p : Text → Bool) (xs : List Text) (k : Text)
    → includes (filter p xs) k ≡ (p k && includes xs k)
includes-filter p [] k = ground arith
includes-filter p (x ∷ xs) k = elim (Bool-cases (text_eq k x)) [
  | inl e ↦
      let same : k ≡ x = text_eq→eq k x e in
      rw same (ground (arith, text_eq_refl x, includes-filter p xs x))
  | inr e ↦ rw e (ground (arith, includes-filter p xs k))
]
