-- ===== src/Publisher/Adding.antt =====
-- add of the publisher list: what it keeps, and what it makes of a publisher that is there.
use port_agent.Prelude.{
  ◌≡◌, inl, inr, refl, sym, ◌∙◌, arith, Bool, true, false, Bool-cases, [], ◌∷◌, ◌++◌, List, none,
  some, All, All-map,
}
use port_agent.Publisher.{
  PublisherType, publisher_unknown, publisher_file, same_type, Publisher, compare,
}
use port_agent.Publisher.PublisherList.{
  has_duplicate, remove_type, add_publisher, add_unique, is_unique, add, search_by_type,
}
use port_agent.Publisher.Ordering.{
  stands_once, stands_once-is_unique, stands_once_same, Apart, AllApart, NoFile, IsOrdered,
  add_publisher-IsOrdered,
}

clash : {b : Bool} → b ≡ true → b ≡ false → ⊥
clash h k = cc

Differ : Publisher → Publisher → Type 0
Differ p i = compare p i ≡ false

has_duplicate_none :
    (p : Publisher) (l : List Publisher) → has_duplicate p l ≡ false → All (Differ p) l
unfolding has_duplicate Differ
has_duplicate_none p [] h = tt
has_duplicate_none p (i ∷ l) h = elim (Bool-cases (compare p i)) [
  | inl e ↦ absurd (clash refl (rw e at h))
  | inr e ↦ (e, has_duplicate_none p l (rw e at h))
]

All-remove_type :
    (P : Publisher → Type 0) (t : PublisherType) (l : List Publisher)
    → All P l
    → All P (remove_type t l)
unfolding remove_type
All-remove_type P t [] h = tt
All-remove_type P t (i ∷ l) h = elim (Bool-cases (same_type t i.publisher_type)) [
  | inl e ↦ rw e h.1
  | inr e ↦ rw e (h.0, All-remove_type P t l h.1)
]

remove_type-IsOrdered :
    (t : PublisherType) (l : List Publisher) → IsOrdered l → IsOrdered (remove_type t l)
unfolding remove_type
remove_type-IsOrdered t [] o = o
remove_type-IsOrdered t (i ∷ l) o =
    let rest : IsOrdered l = record { files_first = o.files_first.1; apart = o.apart.1 } in
    let o' = remove_type-IsOrdered t l rest in
    elim (Bool-cases (same_type t i.publisher_type)) [
      | inl e ↦ rw e rest
      | inr e ↦ rw e (record {
        files_first = (λ n. All-remove_type NoFile t l (o.files_first.0 n), o'.files_first);
        apart = (All-remove_type (Apart i) t l o.apart.0, o'.apart);
      })
    ]

OtherType : PublisherType → Publisher → Type 0
OtherType t i = same_type t i.publisher_type ≡ false

same_type_same :
    (s t u : PublisherType) → same_type s t ≡ true → same_type t u ≡ false → same_type s u ≡ false
same_type_same s t u h k = ground arith

remove_type_other :
    (t : PublisherType) (l : List Publisher)
    → stands_once t ≡ true
    → AllApart l
    → All (OtherType t) (remove_type t l)
unfolding remove_type OtherType
remove_type_other t [] u a = tt
remove_type_other t (i ∷ l) u a = elim (Bool-cases (same_type t i.publisher_type)) [
  | inl e ↦ rw e (
      All-map (Apart i) (OtherType t) l
        (λ j h.
          same_type_same t i.publisher_type j.publisher_type e
            (h.1 (sym (stands_once_same t i.publisher_type e) ∙ u)))
        a.0)
  | inr e ↦ rw e (e, remove_type_other t l u a.1)
]

join :
    (p : Publisher) (l : List Publisher)
    → All (Differ p) l
    → All (OtherType p.publisher_type) l
    → All (Apart p) l
unfolding Differ OtherType
join p [] d o = tt
join p (i ∷ l) d o = ((d.0, λ u. o.0), join p l d.1 o.1)

-- On an ordered list, add keeps the file publishers first, no two publishers that compare
-- equal, and at most one driver command, one instrument command and one instrument data
-- publisher.
pub add-IsOrdered : (p : Publisher) (l : List Publisher) → IsOrdered l → IsOrdered (add p l).1
unfolding add add_unique
add-IsOrdered p l o = elim (Bool-cases (has_duplicate p l)) [
  | inl e ↦ rw e o
  | inr e ↦
      let d = has_duplicate_none p l e in
      let once = stands_once-is_unique p.publisher_type in
      elim (Bool-cases (is_unique p.publisher_type)) [
        | inl u ↦
            rw (e, u)
              (add_publisher-IsOrdered p (remove_type p.publisher_type l)
                (remove_type-IsOrdered p.publisher_type l o)
                (join p (remove_type p.publisher_type l)
                  (All-remove_type (Differ p) p.publisher_type l d)
                  (remove_type_other p.publisher_type l (once ∙ u) o.apart)))
        | inr n ↦
            rw (e, n)
              (add_publisher-IsOrdered p l o (
                All-map (Differ p) (Apart p) l
                  (λ i h. (unfold Differ in h, λ u. absurd (clash (sym once ∙ u) n))) d))
      ]
]

duplicate_last :
    (p : Publisher) (l : List Publisher) → compare p p ≡ true → has_duplicate p (l ++ p ∷ []) ≡ true
unfolding has_duplicate
duplicate_last p [] h = rw h refl
duplicate_last p (i ∷ l) h = elim (Bool-cases (compare p i)) [
  | inl e ↦ rw e refl
  | inr e ↦ rw e (duplicate_last p l h)
]

add_publisher-has_duplicate :
    (p : Publisher) (l : List Publisher)
    → compare p p ≡ true
    → same_type p.publisher_type publisher_unknown ≡ false
    → has_duplicate p (add_publisher p l).1 ≡ true
unfolding add_publisher has_duplicate
add_publisher-has_duplicate p l h k =
    elim (Bool-cases (same_type p.publisher_type publisher_file)) [
      | inl f ↦ rw (k, f, h) refl
      | inr n ↦ rw (k, n) (duplicate_last p l h)
    ]

add-has_duplicate :
    (p : Publisher) (l : List Publisher)
    → compare p p ≡ true
    → same_type p.publisher_type publisher_unknown ≡ false
    → has_duplicate p (add p l).1 ≡ true
unfolding add add_unique
add-has_duplicate p l h k = elim (Bool-cases (has_duplicate p l)) [
  | inl e ↦ rw (e, e) refl
  | inr e ↦ elim (Bool-cases (is_unique p.publisher_type)) [
    | inl u ↦ rw (e, u) (add_publisher-has_duplicate p (remove_type p.publisher_type l) h k)
    | inr n ↦ rw (e, n) (add_publisher-has_duplicate p l h k)
  ]
]

compare-same_type :
    (p i : Publisher) → compare p i ≡ true → same_type i.publisher_type p.publisher_type ≡ true
unfolding compare
compare-same_type p i h = ground arith

later_duplicate :
    (p i : Publisher) (l : List Publisher)
    → has_duplicate p (i ∷ l) ≡ true
    → same_type i.publisher_type p.publisher_type ≡ false
    → has_duplicate p l ≡ true
unfolding has_duplicate
later_duplicate p i l h n = elim (Bool-cases (compare p i)) [
  | inl e ↦ absurd (clash (compare-same_type p i e) n)
  | inr e ↦ (rw e at h)
]

add_found : (p : Publisher) (l : List Publisher) → has_duplicate p l ≡ true → add p l ≡ (none, l)
unfolding add
add_found p l h = rw h refl

search_of_duplicate :
    (p : Publisher) (l : List Publisher)
    → has_duplicate p l ≡ true
    → (q : Publisher) × (search_by_type p.publisher_type l ≡ some q)
      × (same_type q.publisher_type p.publisher_type ≡ true)
unfolding has_duplicate search_by_type
search_of_duplicate p [] h = absurd (clash h refl)
search_of_duplicate p (i ∷ l) h = elim (Bool-cases (same_type i.publisher_type p.publisher_type)) [
  | inl s ↦ (i, rw s refl, s)
  | inr n ↦
      let (q, found, s) = search_of_duplicate p l (later_duplicate p i l h n) in (q, rw n found, s)
]

-- Added twice, a publisher of a known type that compares equal to itself stands in the list as
-- if added once, and a publisher of its type is found there.
add-add :
    (p : Publisher) (l : List Publisher)
    → compare p p ≡ true
    → same_type p.publisher_type publisher_unknown ≡ false
    → (add p (add p l).1 ≡ (none, (add p l).1))
      × ((q : Publisher) × (search_by_type p.publisher_type (add p l).1 ≡ some q)
          × (same_type q.publisher_type p.publisher_type ≡ true))
add-add p l h k =
    let d = add-has_duplicate p l h k in
    (add_found p (add p l).1 d, search_of_duplicate p (add p l).1 d)
