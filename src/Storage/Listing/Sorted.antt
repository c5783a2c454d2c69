-- ===== src/Storage/Listing/Sorted.antt =====
-- Sorting the items of a listing.
use mathlib.Core.List.{Perm}
use mathlib.Core.List.Perm
use stocka_server.Prelude.{
  ◌≡◌, Bool, true, false, List, [], ◌∷◌, Bool-cases, inl, inr, All, All-map, Text,
}
use stocka_server.Storage.View.{ItemView}
use stocka_server.Storage.Listing.{SortOrder, ascending, descending, insert, sort, in_order}

-- Every earlier item stands in the relation to every later one.
abbrev pub IsSorted : (ItemView → ItemView → Type 0) → List ItemView → Type 0
IsSorted R [] = Unit
IsSorted R (x ∷ xs) = All (R x) xs × IsSorted R xs

module _ (before : ItemView → ItemView → Bool) where
  insert-Perm : (x : ItemView) (ys : List ItemView) → Perm (insert before x ys) (x ∷ ys)
  insert-Perm x [] = Perm.refl _
  insert-Perm x (y ∷ ys) = elim (Bool-cases (before x y)) [
    | inl e ↦ rw e (Perm.refl _)
    | inr e ↦ rw e (Perm.trans (Perm.cons y (insert-Perm x ys)) (Perm.swap x y ys))
  ]

  pub sort-Perm : (xs : List ItemView) → Perm (sort before xs) xs
  sort-Perm [] = Perm.refl _
  sort-Perm (x ∷ xs) = Perm.trans (insert-Perm x (sort before xs)) (Perm.cons x (sort-Perm xs))

  insert-All :
      (P : ItemView → Type 0) (x : ItemView) (ys : List ItemView)
      → P x
      → All P ys
      → All P (insert before x ys)
  insert-All P x [] p h = (p, tt)
  insert-All P x (y ∷ ys) p (q, h) = elim (Bool-cases (before x y)) [
    | inl e ↦ rw e (p, (q, h))
    | inr e ↦ rw e (q, insert-All P x ys p h)
  ]

  pub sort-All : (P : ItemView → Type 0) (xs : List ItemView) → All P xs → All P (sort before xs)
  sort-All P [] h = tt
  sort-All P (x ∷ xs) (p, h) = insert-All P x (sort before xs) p (sort-All P xs h)

  module _ (R : ItemView → ItemView → Type 0) (yes : (x y : ItemView) → before x y ≡ true → R x y)
      (no : (x y : ItemView) → before x y ≡ false → R y x)
      (transitive : (x y z : ItemView) → R x y → R y z → R x z) where
    insert-IsSorted :
        (x : ItemView) (ys : List ItemView) → IsSorted R ys → IsSorted R (insert before x ys)
    insert-IsSorted x [] h = (tt, tt)
    insert-IsSorted x (y ∷ ys) (below, s) = elim (Bool-cases (before x y)) [
      | inl e ↦ rw e ((yes x y e, All-map (λ z. transitive x y z (yes x y e)) ys below), (below, s))
      | inr e ↦ rw e (insert-All (R y) x ys (no x y e) below, insert-IsSorted x ys s)
    ]

    pub sort-IsSorted : (xs : List ItemView) → IsSorted R (sort before xs)
    sort-IsSorted [] = tt
    sort-IsSorted (x ∷ xs) = insert-IsSorted x (sort before xs) (sort-IsSorted xs)

-- What sorting relies on of the comparison of names: it is transitive, and two names are in order one
-- way or the other.
pub record IsCollation (collates : Text → Text → Bool) : Type 0 where
  pub transitive : (a b c : Text) → collates a b ≡ true → collates b c ≡ true → collates a c ≡ true
  pub total : (a b : Text) → collates a b ≡ false → collates b a ≡ true

module _ (collates : Text → Text → Bool) (contains : Text → Text → Bool) where
  -- The first item may stand before the second in a listing of this order.
  abbrev pub Precedes : SortOrder → ItemView → ItemView → Type 0
  Precedes ascending a b = collates a.name b.name ≡ true
  Precedes descending a b = collates b.name a.name ≡ true

  pub in_order-IsSorted :
      IsCollation collates
      → (order : SortOrder) (xs : List ItemView)
      → IsSorted (Precedes order) (sort (in_order collates contains order) xs)
  in_order-IsSorted c ascending =
      sort-IsSorted (in_order collates contains ascending) (Precedes ascending) (λ x y h. h)
        (λ x y h. c.total x.name y.name h) (λ x y z p q. c.transitive x.name y.name z.name p q)
  in_order-IsSorted c descending =
      sort-IsSorted (in_order collates contains descending) (Precedes descending) (λ x y h. h)
        (λ x y h. c.total y.name x.name h) (λ x y z p q. c.transitive z.name y.name x.name q p)
