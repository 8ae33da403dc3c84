-- ===== src/Host/Lists.antt =====
-- internal/kernel/host.go: lists of members, their order and their keys.
use rpc_plugin_system.Prelude.{
  ◌≡◌, inl, inr, refl, ◌∙◌, true, false, List, [], ◌∷◌, ◌++◌, Text, text_eq, text_eq_iff, text_leb,
  arith, Bool-cases, if◌then◌else◌,
}
use rpc_plugin_system.Host.Types.{Member, has_member, insert_member, sort_members}

abbrev pub All : (Member → Type 0) → List Member → Type 0
All P [] = Unit {0}
All P (x ∷ xs) = P x × All P xs

pub All-append :
    (P : Member → Type 0) (xs ys : List Member) → All P xs → All P ys → All P (xs ++ ys)
All-append P [] ys h k = k
All-append P (x ∷ xs) ys (h, hs) k = (h, All-append P xs ys hs k)

pub All-insert_member :
    (P : Member → Type 0) (x : Member) (ys : List Member)
    → P x
    → All P ys
    → All P (insert_member x ys)
All-insert_member P x [] h k = (h, tt)
All-insert_member P x (y ∷ ys) h (k, ks) = elim (Bool-cases (text_leb x.id y.id)) [
  | inl e ↦ rw e (h, (k, ks))
  | inr e ↦ rw e (k, All-insert_member P x ys h ks)
]

pub All-sort_members : (P : Member → Type 0) (xs : List Member) → All P xs → All P (sort_members xs)
All-sort_members P [] h = tt
All-sort_members P (x ∷ xs) (h, hs) =
    All-insert_member P x (sort_members xs) h (All-sort_members P xs hs)

-- No id stands twice.
abbrev pub Distinct : List Member → Type 0
Distinct [] = Unit {0}
Distinct (x ∷ xs) = (has_member x.id xs ≡ false) × Distinct xs

pub has_member-append :
    (id : Text) (xs : List Member) (x : Member)
    → has_member id (xs ++ x ∷ []) ≡ (if text_eq x.id id then true else has_member id xs)
has_member-append id [] x = refl
has_member-append id (y ∷ ys) x = ground (arith, has_member-append id ys x)

text_eq-sym : (s t : Text) → text_eq s t ≡ text_eq t s
text_eq-sym s t = ground (arith, text_eq_iff s t, text_eq_iff t s)

pub append-Distinct :
    (xs : List Member) (x : Member)
    → has_member x.id xs ≡ false
    → Distinct xs
    → Distinct (xs ++ x ∷ [])
append-Distinct [] x h k = (refl, tt)
append-Distinct (y ∷ ys) x h (k, ks) = (
  ground (arith, has_member-append y.id ys x, text_eq-sym x.id y.id),
  append-Distinct ys x (ground (arith, h)) ks,
)

has_member-insert_member :
    (id : Text) (x : Member) (ys : List Member)
    → has_member id (insert_member x ys) ≡ (if text_eq x.id id then true else has_member id ys)
has_member-insert_member id x [] = refl
has_member-insert_member id x (y ∷ ys) = ground (arith, has_member-insert_member id x ys)

pub has_member-sort_members :
    (id : Text) (xs : List Member) → has_member id (sort_members xs) ≡ has_member id xs
has_member-sort_members id [] = refl
has_member-sort_members id (x ∷ xs) =
    ground (arith, has_member-insert_member id x (sort_members xs), has_member-sort_members id xs)

insert_member-Distinct :
    (x : Member) (ys : List Member)
    → has_member x.id ys ≡ false
    → Distinct ys
    → Distinct (insert_member x ys)
insert_member-Distinct x [] h k = (refl, tt)
insert_member-Distinct x (y ∷ ys) h (k, ks) = elim (Bool-cases (text_leb x.id y.id)) [
  | inl e ↦ rw e (h, (k, ks))
  | inr e ↦ rw e (
    ground (arith, has_member-insert_member y.id x ys, text_eq-sym x.id y.id),
    insert_member-Distinct x ys (ground (arith, h)) ks,
  )
]

pub sort_members-Distinct : (xs : List Member) → Distinct xs → Distinct (sort_members xs)
sort_members-Distinct [] h = tt
sort_members-Distinct (x ∷ xs) (h, hs) =
    insert_member-Distinct x (sort_members xs) (has_member-sort_members x.id xs ∙ h)
      (sort_members-Distinct xs hs)

-- Ascending ids.
abbrev pub Below : Member → List Member → Type 0
Below x [] = Unit {0}
Below x (y ∷ ys) = text_leb x.id y.id ≡ true

abbrev pub IsSorted : List Member → Type 0
IsSorted [] = Unit {0}
IsSorted (x ∷ xs) = Below x xs × IsSorted xs

text_leb-total : (s t : Text) → text_leb s t ≡ false → text_leb t s ≡ true
text_leb-total [] t h = ground arith
text_leb-total (a ∷ s) [] h = refl
text_leb-total (a ∷ s) (b ∷ t) h = ground (arith, text_leb-total s t)

insert_member-Below :
    (x y : Member) (ys : List Member)
    → text_leb y.id x.id ≡ true
    → Below y ys
    → Below y (insert_member x ys)
insert_member-Below x y [] h k = h
insert_member-Below x y (z ∷ zs) h k = elim (Bool-cases (text_leb x.id z.id)) [
  | inl e ↦ rw e h
  | inr e ↦ rw e k
]

insert_member-IsSorted :
    (x : Member) (ys : List Member) → IsSorted ys → IsSorted (insert_member x ys)
insert_member-IsSorted x [] k = (tt, tt)
insert_member-IsSorted x (y ∷ ys) (k, ks) = elim (Bool-cases (text_leb x.id y.id)) [
  | inl e ↦ rw e (e, (k, ks))
  | inr e ↦
      rw e
        (insert_member-Below x y ys (text_leb-total x.id y.id e) k, insert_member-IsSorted x ys ks)
]

pub sort_members-IsSorted : (xs : List Member) → IsSorted (sort_members xs)
sort_members-IsSorted [] = tt
sort_members-IsSorted (x ∷ xs) =
    insert_member-IsSorted x (sort_members xs) (sort_members-IsSorted xs)
