-- ===== src/Asl/View.antt =====
-- The queue of each semaphore, as a map from its address.
use mathlib.Core.List.{append_assoc}
use os_fall_2021_project.Prelude.{
  ℕ, suc, ◌+◌, ◌≡◌, refl, sym, true, false, inl, inr, List, [], ◌∷◌, ◌++◌, arith, ◌==◌,
  if◌then◌else◌, has, has-append, drop_all, drop_all_absent, drop_all-append, length, leb, ◌&&◌,
  Distinct, Distinct-right, Distinct-apart, Bool-cases,
}
use os_fall_2021_project.Asl.Entries.{Entry, keys_of, pcbs_of, pcbs_of-append, Sorted}
use os_fall_2021_project.Asl.Around.{entry}
use os_fall_2021_project.Asl.Wait.{waiting_on, pcbs_of-waiting_on, above}
use os_fall_2021_project.Asl.Insert.{Sorted-lt}

-- The pcbs that wait on the semaphore `k`, the first one first.
abbrev pub queue_of : ℕ → List Entry → List ℕ
queue_of k [] = []
queue_of k (e ∷ es) = if e.sem_add == k then e.queue else queue_of k es

queue_of_absent : (k : ℕ) (es : List Entry) → has k (keys_of es) ≡ false → queue_of k es ≡ []
queue_of_absent k [] h = refl
queue_of_absent k (e ∷ es) h = ground (arith, queue_of_absent k es)

pub has-queue_of :
    (b k : ℕ) (es : List Entry) → has b (pcbs_of es) ≡ false → has b (queue_of k es) ≡ false
has-queue_of b k [] h = refl
has-queue_of b k (e ∷ es) h = ground (arith, has-queue_of b k es, has-append b e.queue (pcbs_of es))

waiting_on-cons :
    (x : Entry) (xs : List Entry) (d k : ℕ) (q : List ℕ) (ys : List Entry)
    → waiting_on (x ∷ xs) d k q ys ≡ x ∷ waiting_on xs d k q ys
waiting_on-cons x xs d k [] ys = refl
waiting_on-cons x xs d k (p ∷ q) ys = refl

-- A pcb that is taken off its semaphore is taken off the queue of that semaphore, and no other changes.
pub queue_of-waiting_on :
    (lo : ℕ) (xs : List Entry) (d k p : ℕ) (ps left : List ℕ) (ys : List Entry) (j : ℕ)
    → drop_all p ps ≡ left
    → has p ps ≡ true
    → Distinct (pcbs_of xs ++ (ps ++ pcbs_of ys))
    → Sorted lo (keys_of xs ++ k ∷ keys_of ys)
    → queue_of j (waiting_on xs d k left ys) ≡ drop_all p (queue_of j (xs ++ entry d k ps ∷ ys))
queue_of-waiting_on lo (x ∷ xs) d k p ps left ys j e m apart sorted =
    let rest = pcbs_of xs ++ (ps ++ pcbs_of ys) in
    let apart' : Distinct (x.queue ++ rest) =
      rw (append_assoc x.queue (pcbs_of xs) (ps ++ pcbs_of ys)) at apart in
    let later =
      queue_of-waiting_on x.sem_add xs d k p ps left ys j e m (Distinct-right x.queue rest apart')
        sorted.2 in
    let out : has p x.queue ≡ false = ground (
      arith,
      Distinct-apart p x.queue rest apart',
      has-append p (pcbs_of xs) (ps ++ pcbs_of ys),
      has-append p ps (pcbs_of ys),
    ) in
    let stays = drop_all_absent p x.queue out in
    rw (waiting_on-cons x xs d k left ys) (elim (Bool-cases (x.sem_add == j)) [
      | inl here ↦ rw here (sym stays)
      | inr there ↦ rw there later
    ])
queue_of-waiting_on lo [] d k p ps [] ys j e m apart sorted =
    let out = has-queue_of p j ys (Distinct-apart p ps (pcbs_of ys) apart m) in
    let none = queue_of_absent k ys (above k k (keys_of ys) sorted.2 (omega arith)) in
    elim (Bool-cases (k == j)) [
      | inl here ↦ let same : k ≡ j = ground arith in rw (here, e) (rw (← same) none)
      | inr there ↦ rw there (sym (drop_all_absent p (queue_of j ys) out))
    ]
queue_of-waiting_on lo [] d k p ps (l ∷ left) ys j e m apart sorted =
    let out = has-queue_of p j ys (Distinct-apart p ps (pcbs_of ys) apart m) in
    elim (Bool-cases (k == j)) [
      | inl here ↦ rw here (sym e)
      | inr there ↦ rw there (sym (drop_all_absent p (queue_of j ys) out))
    ]

-- An entry with the pcb.
pub record Holder (p : ℕ) (es : List Entry) : Type 0 where
  pub before : List Entry
  pub holder : Entry
  pub after : List Entry
  pub split : es ≡ before ++ holder ∷ after
  pub member : has p holder.queue ≡ true

pub hold : (p : ℕ) (es : List Entry) → has p (pcbs_of es) ≡ true → Holder p es
hold p [] h = ground arith
hold p (e ∷ es) h = elim (Bool-cases (has p e.queue)) [
  | inl here ↦ record { before = []; holder = e; after = es; split = refl; member = here }
  | inr there ↦
      let later = hold p es (ground (arith, has-append p e.queue (pcbs_of es))) in
      record {
        before = e ∷ later.before;
        holder = later.holder;
        after = later.after;
        split = ground (arith, later.split);
        member = later.member;
      }
]

-- The queue of the semaphore of an entry, and those of the others.
pub queue_of-entry :
    (lo : ℕ) (xs : List Entry) (d k : ℕ) (ps : List ℕ) (ys : List Entry)
    → Sorted lo (keys_of xs ++ k ∷ keys_of ys)
    → queue_of k (xs ++ entry d k ps ∷ ys) ≡ ps
queue_of-entry lo [] d k ps ys sorted = ground arith
queue_of-entry lo (x ∷ xs) d k ps ys sorted = ground (
  arith,
  queue_of-entry x.sem_add xs d k ps ys sorted.2,
  Sorted-lt x.sem_add (keys_of xs) k (keys_of ys) sorted.2,
)

pub queue_of-other :
    (xs : List Entry) (d k p : ℕ) (ps : List ℕ) (ys : List Entry) (j : ℕ)
    → has p ps ≡ true
    → Distinct (pcbs_of xs ++ (ps ++ pcbs_of ys))
    → (k == j) ≡ false
    → has p (queue_of j (xs ++ entry d k ps ∷ ys)) ≡ false
queue_of-other [] d k p ps ys j m apart ne =
    rw ne (has-queue_of p j ys (Distinct-apart p ps (pcbs_of ys) apart m))
queue_of-other (x ∷ xs) d k p ps ys j m apart ne =
    let rest = pcbs_of xs ++ (ps ++ pcbs_of ys) in
    let apart' : Distinct (x.queue ++ rest) =
      rw (append_assoc x.queue (pcbs_of xs) (ps ++ pcbs_of ys)) at apart in
    ground (
      arith,
      queue_of-other xs d k p ps ys j m (Distinct-right x.queue rest apart') ne,
      Distinct-apart p x.queue rest apart',
      has-append p (pcbs_of xs) (ps ++ pcbs_of ys),
      has-append p ps (pcbs_of ys),
    )

-- The number of pcbs that wait on the semaphores from `lo` to `hi`.
abbrev pub waiters : (lo hi : ℕ) → List Entry → ℕ
waiters lo hi [] = 0
waiters lo hi (e ∷ es) =
    if leb lo e.sem_add && leb e.sem_add hi
    then length e.queue + waiters lo hi es
    else waiters lo hi es

pub waiters-waiting_on :
    (lo hi : ℕ) (xs : List Entry) (d k : ℕ) (ps left : List ℕ) (ys : List Entry)
    → length ps ≡ suc (length left)
    → waiters lo hi (xs ++ entry d k ps ∷ ys)
      ≡ (if leb lo k && leb k hi then 1 else 0) + waiters lo hi (waiting_on xs d k left ys)
waiters-waiting_on lo hi [] d k ps [] ys h = ground arith
waiters-waiting_on lo hi [] d k ps (l ∷ left) ys h = ground arith
waiters-waiting_on lo hi (x ∷ xs) d k ps left ys h =
    rw (waiting_on-cons x xs d k left ys)
      (ground (arith, waiters-waiting_on lo hi xs d k ps left ys h))

pub pcbs_of-taken :
    (xs : List Entry) (d k p : ℕ) (ps : List ℕ) (ys : List Entry)
    → has p ps ≡ true
    → Distinct (pcbs_of xs ++ (ps ++ pcbs_of ys))
    → pcbs_of (waiting_on xs d k (drop_all p ps) ys)
      ≡ drop_all p (pcbs_of (xs ++ entry d k ps ∷ ys))
pcbs_of-taken xs d k p ps ys m apart =
    let far : has p (pcbs_of xs) ≡ false = ground (
      arith,
      Distinct-apart p (pcbs_of xs) (ps ++ pcbs_of ys) apart,
      has-append p ps (pcbs_of ys),
    ) in
    let later = Distinct-apart p ps (pcbs_of ys) (Distinct-right (pcbs_of xs) _ apart) m in
    rw
      (
        pcbs_of-waiting_on xs d k (drop_all p ps) ys,
        pcbs_of-append xs (entry d k ps ∷ ys),
        drop_all-append p (pcbs_of xs) (ps ++ pcbs_of ys),
        drop_all-append p ps (pcbs_of ys),
        drop_all_absent p (pcbs_of xs) far,
        drop_all_absent p (pcbs_of ys) later,
      )
      refl
