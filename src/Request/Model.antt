-- ===== src/Request/Model.antt =====
-- A tree that meets the laws of Gtree for compare_func: a sorted association list.
use misc_uni_stuff.Base.{
  ℕ, ◌≡◌, ◌<◌, refl, arith, List, [], ◌∷◌, if◌then◌else◌, none, some, negsuc, is_zero, All, ltb,
  ◌==◌, Bool-cases, inl, inr,
}
use misc_uni_stuff.Glib.{Gtree, walk, Ascending, assoc}
use misc_uni_stuff.Request.{compare_func}
use misc_uni_stuff.Request.Scan.{compare_func-eq, compare_func-lt, assoc_above}

pub record Sorted : Type 0 where
  pub nodes : List (ℕ × ℕ)
  pub ascending : Ascending compare_func nodes

abbrev pub insert_node : ℕ → ℕ → List (ℕ × ℕ) → List (ℕ × ℕ)
insert_node k v [] = (k, v) ∷ []
insert_node k v ((j, w) ∷ l) =
    if ltb k j
    then (k, v) ∷ (j, w) ∷ l
    else if ltb j k
    then (j, w) ∷ insert_node k v l
    else (k, v) ∷ l

abbrev pub remove_node : ℕ → List (ℕ × ℕ) → List (ℕ × ℕ)
remove_node k [] = []
remove_node k ((j, w) ∷ l) = if k == j then l else (j, w) ∷ remove_node k l

abbrev Above : ℕ → List (ℕ × ℕ) → Type 0
Above i l = All (λ n. compare_func i n.0 ≡ negsuc 0) l

compare_func-eq-negsuc : (k j : ℕ) → k < j → compare_func k j ≡ negsuc 0
unfolding compare_func
compare_func-eq-negsuc k j h = ground arith

Above-trans : (i k : ℕ) (l : List (ℕ × ℕ)) → i < k → Above k l → Above i l
Above-trans i k [] h a = tt
Above-trans i k (n ∷ l) h a = (
  compare_func-eq-negsuc i n.0 (omega (arith, compare_func-lt k n.0 a.0)),
  Above-trans i k l h a.1,
)

Above-insert_node : (i k v : ℕ) (l : List (ℕ × ℕ)) → i < k → Above i l → Above i (insert_node k v l)
Above-insert_node i k v [] h a = (compare_func-eq-negsuc i k h, tt)
Above-insert_node i k v ((j, w) ∷ l) h a =
    ground (arith, compare_func-eq-negsuc i k h, Above-insert_node i k v l h a.1)

pub insert_node-Ascending :
    (k v : ℕ) (l : List (ℕ × ℕ))
    → Ascending compare_func l
    → Ascending compare_func (insert_node k v l)
insert_node-Ascending k v [] a = (tt, tt)
insert_node-Ascending k v ((j, w) ∷ l) a = elim (Bool-cases (ltb k j)) [
  | inl lt ↦
      rw lt ((compare_func-eq-negsuc k j (ground arith), Above-trans k j l (ground arith) a.0), a)
  | inr ge ↦ elim (Bool-cases (ltb j k)) [
    | inl gt ↦
        rw (ge, gt) (Above-insert_node j k v l (ground arith) a.0, insert_node-Ascending k v l a.1)
    | inr le ↦ let e : k ≡ j = ground arith in rw (ge, le) (rw e a)
  ]
]

Above-remove_node : (i k : ℕ) (l : List (ℕ × ℕ)) → Above i l → Above i (remove_node k l)
Above-remove_node i k [] a = tt
Above-remove_node i k ((j, w) ∷ l) a = ground (arith, Above-remove_node i k l a.1)

pub remove_node-Ascending :
    (k : ℕ) (l : List (ℕ × ℕ)) → Ascending compare_func l → Ascending compare_func (remove_node k l)
remove_node-Ascending k [] a = tt
remove_node-Ascending k ((j, w) ∷ l) a =
    ground (arith, Above-remove_node j k l a.0, remove_node-Ascending k l a.1)

pub assoc-insert_node :
    (l : List (ℕ × ℕ)) (k v j : ℕ)
    → assoc compare_func j (insert_node k v l)
      ≡ (if is_zero (compare_func k j) then some v else assoc compare_func j l)
assoc-insert_node [] k v j = refl
assoc-insert_node ((i, w) ∷ l) k v j =
    ground (arith, compare_func-eq k j, compare_func-eq i j, assoc-insert_node l k v j)

pub assoc-remove_node :
    (l : List (ℕ × ℕ)) (k j : ℕ)
    → Ascending compare_func l
    → assoc compare_func j (remove_node k l)
      ≡ (if is_zero (compare_func k j) then none else assoc compare_func j l)
assoc-remove_node [] k j a = ground arith
assoc-remove_node ((i, w) ∷ l) k j a = ground (
  arith,
  compare_func-eq k j,
  compare_func-eq i j,
  assoc_above i j l,
  assoc-remove_node l k j a.1,
)

instance abbrev pub sorted_tree : Gtree compare_func
sorted_tree = record {
  Tree = Sorted;
  create = record { nodes = []; ascending = tt };
  lookup = λ t k. assoc compare_func k t.nodes;
  insert = λ t k v. record {
    nodes = insert_node k v t.nodes;
    ascending = insert_node-Ascending k v t.nodes t.ascending;
  };
  remove = λ t k. record {
    nodes = remove_node k t.nodes;
    ascending = remove_node-Ascending k t.nodes t.ascending;
  };
  foreach = λ {S} f t s. walk f t.nodes s;
  nodes = λ t. t.nodes;
  nodes-Ascending = λ t. t.ascending;
  lookup-nodes = λ t k. refl;
  foreach-nodes = λ {S} f t s. refl;
  lookup-create = λ k. refl;
  lookup-insert = λ t k v j. assoc-insert_node t.nodes k v j;
  lookup-remove = λ t k j. assoc-remove_node t.nodes k j t.ascending;
}
