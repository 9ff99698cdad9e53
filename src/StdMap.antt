-- ===== src/StdMap.antt =====
-- std::map with a comparison of its keys: an association list in the order of the keys, which is
-- the order of iteration.
use Prim.Native.Nat.{Ordering, compare}
use web_server.Prelude.{
  ℕ, ◌≡◌, refl, Bool, true, false, Option, none, some, List, [], ◌∷◌, if◌then◌else◌, ◌↔◌, arith,
}
use web_server.Bytes.{Bytes}

abbrev pub is_eq : Ordering → Bool
is_eq Ordering.eq = true
is_eq _ = false

pub record Order (K : Type 0) : Type 0 where
  pub cmp : K → K → Ordering
  pub cmp_iff : (a b : K) → (is_eq (cmp a b) ≡ true) ↔ (a ≡ b)

-- std::less<std::string>: the bytes compare as unsigned characters.
unfoldable pub compare_bytes : Bytes → Bytes → Ordering
compare_bytes [] [] = Ordering.eq
compare_bytes [] (_ ∷ _) = Ordering.lt
compare_bytes (_ ∷ _) [] = Ordering.gt
compare_bytes (a ∷ s) (b ∷ t) = elim (compare a b) [
  | Ordering.lt ↦ Ordering.lt
  | Ordering.eq ↦ compare_bytes s t
  | Ordering.gt ↦ Ordering.gt
]

pub compare_bytes_iff : (a b : Bytes) → (is_eq (compare_bytes a b) ≡ true) ↔ (a ≡ b)
unfolding compare_bytes
compare_bytes_iff [] [] = ground arith
compare_bytes_iff [] (b ∷ t) = ground arith
compare_bytes_iff (a ∷ s) [] = ground arith
compare_bytes_iff (a ∷ s) (b ∷ t) = ground (arith, compare_bytes_iff s t)

instance abbrev pub bytes_order : Order Bytes
bytes_order = record { cmp = compare_bytes; cmp_iff = compare_bytes_iff }

pub compare_iff : (a b : ℕ) → (is_eq (compare a b) ≡ true) ↔ (a ≡ b)
compare_iff a b = ground arith

-- The keys that are an `int`, in the order of their words: no map with such keys is iterated.
instance abbrev pub int_order : Order ℕ
int_order = record { cmp = compare; cmp_iff = compare_iff }

module _ {K V : Type 0} ⦃o : Order K⦄ where
  unfoldable pub lookup : K → List (K × V) → Option V
  lookup k [] = none
  lookup k ((j, v) ∷ m) = if is_eq (o.cmp k j) then some v else lookup k m

  -- m[k] = v
  unfoldable pub insert : K → V → List (K × V) → List (K × V)
  insert k v [] = (k, v) ∷ []
  insert k v ((j, w) ∷ m) = elim (o.cmp k j) [
    | Ordering.lt ↦ (k, v) ∷ (j, w) ∷ m
    | Ordering.eq ↦ (k, v) ∷ m
    | Ordering.gt ↦ (j, w) ∷ insert k v m
  ]

  -- m.erase(k); a map has a key once.
  unfoldable pub erase : K → List (K × V) → List (K × V)
  erase k [] = []
  erase k ((j, v) ∷ m) = if is_eq (o.cmp k j) then erase k m else (j, v) ∷ erase k m

  pub lookup-insert :
      (k i : K) (v : V) (m : List (K × V))
      → lookup i (insert k v m) ≡ (if is_eq (o.cmp i k) then some v else lookup i m)
  unfolding lookup insert
  lookup-insert k i v [] = refl
  lookup-insert k i v ((j, w) ∷ m) =
      ground
        (arith, o.cmp_iff k i, o.cmp_iff i k, o.cmp_iff i j, o.cmp_iff k j, lookup-insert k i v m)

  pub lookup-insert_self : (k : K) (v : V) (m : List (K × V)) → lookup k (insert k v m) ≡ some v
  lookup-insert_self k v m = rw (lookup-insert k k v m, (o.cmp_iff k k).1 refl)

  pub lookup-erase_self : (k : K) (m : List (K × V)) → lookup k (erase k m) ≡ none
  unfolding lookup erase
  lookup-erase_self k [] = refl
  lookup-erase_self k ((j, v) ∷ m) = ground (arith, lookup-erase_self k m)
