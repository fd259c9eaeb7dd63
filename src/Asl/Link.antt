-- ===== src/Asl/Link.antt =====
-- The middle of `insertBlocked`: a free descriptor linked between two parts of the list.
use mathlib.Core.List.{append_assoc}
use mathlib.Core.Path.{subst}
use os_fall_2021_project.Prelude.{
  ℕ, ◌<◌, ◌≡◌, refl, true, false, ◌||◌, List, [], ◌∷◌, ◌++◌, arith, ◌==◌, has, AllTrue, Distinct,
  in_range, update, ◌∙◌, has-append, AllTrue-has, AllTrue-of_has, Distinct-left, Distinct-right,
  Distinct-apart, Distinct-middle, Distinct-insert, ap, update_self, AllTrue-out, Bool-cases,
}
use os_fall_2021_project.Machine.Word.{null, max_proc}
use os_fall_2021_project.Pcb.{Procs}
use os_fall_2021_project.Pcb.Seg.{last, has-last}
use os_fall_2021_project.Asl.{Semds, Asl}
use os_fall_2021_project.Asl.Entries.{
  Entry, semds_of, keys_of, Run, Run-frame, Run-split, IsAsl, Holds-frame, Sorted, FreeChain,
  dummy_head, dummy_tail, semds_of-append, pcbs_of-append, behind, ahead,
}
use os_fall_2021_project.Asl.Traverse.{start_of}
use os_fall_2021_project.Asl.Around.{Around}

-- The state after `semdAlloc` gave `f` and the two writes of `insertBlocked` linked it.
abbrev pub linked : Semds → (temp temp_new temp2 k : ℕ) → Semds
linked sd temp f temp2 k = record sd {
  semd_free_h = sd.s_next f;
  s_sem_add = update sd.s_sem_add f k;
  s_proc_q = update sd.s_proc_q f null;
  s_next = update (update sd.s_next f temp2) temp f;
}

pub FreeChain-frame :
    (next next' : ℕ → ℕ) (a : ℕ) (fs : List ℕ)
    → FreeChain next a fs
    → ((b : ℕ) → has b fs ≡ true → next' b ≡ next b)
    → FreeChain next' a fs
FreeChain-frame next next' a [] c same = c
FreeChain-frame next next' a (f ∷ fs) c same = (
  c.0,
  rw (same f (ground arith))
      (FreeChain-frame next next' (next f) fs c.1 (λ b m. same b (ground arith))),
)

-- A run from `b` through the entries that another descriptor led to.
pub Run-restart :
    (sd sd' : Semds) (pr : Procs) (a b : ℕ) (ys : List Entry)
    → Run sd pr a ys
    → sd'.s_next b ≡ start_of ys
    → Distinct (semds_of ys)
    → ((c : ℕ)
        → has c (semds_of ys) ≡ true
        → (sd'.s_next c ≡ sd.s_next c)
          × (sd'.s_sem_add c ≡ sd.s_sem_add c)
          × (sd'.s_proc_q c ≡ sd.s_proc_q c))
    → Run sd' pr b ys
Run-restart sd sd' pr a b [] r e d same = tt
Run-restart sd sd' pr a b (y ∷ ys) r e d same = (
  e,
  Holds-frame sd sd' pr pr y r.1 (same y.semd (ground arith)).1 (same y.semd (ground arith)).2
      (λ p m. (refl, refl, refl)),
  Run-frame sd sd' pr pr y.semd ys r.2 d (λ c m ne. (same c m).0)
      (λ c m. ((same c (ground arith)).1, (same c (ground arith)).2)) (λ p m. (refl, refl, refl)),
)

-- So it ends where that one did.
pub end-restart :
    (sd sd' : Semds) (a b : ℕ) (ys : List Entry)
    → sd.s_next (last a (semds_of ys)) ≡ dummy_tail
    → sd'.s_next b ≡ start_of ys
    → ((c : ℕ) → has c (semds_of ys) ≡ true → sd'.s_next c ≡ sd.s_next c)
    → sd'.s_next (last b (semds_of ys)) ≡ dummy_tail
unfolding last
end-restart sd sd' a b [] e n same = n
end-restart sd sd' a b (y ∷ ys) e n same =
    same (last y.semd (semds_of ys)) (has-last y.semd (semds_of ys)) ∙ e

Distinct-shift :
    (xs ys : List ℕ) (f : ℕ) (fs : List ℕ)
    → Distinct ((xs ++ ys) ++ f ∷ fs)
    → Distinct ((xs ++ f ∷ ys) ++ fs)
Distinct-shift xs ys f fs d =
    let cut = Distinct-middle (xs ++ ys) f fs d in
    rw (append_assoc xs (f ∷ ys) fs) (
      Distinct-insert xs f (ys ++ fs) (rw (← append_assoc xs ys fs) cut.0)
        (rw (← append_assoc xs ys fs) cut.1))

pub last_append : (a : ℕ) (xs ys : List ℕ) → last a (xs ++ ys) ≡ last (last a xs) ys
unfolding last
last_append a [] ys = refl
last_append a (x ∷ xs) ys = last_append x xs ys

module _ (s : Asl) (xs ys : List Entry) (f : ℕ) (fs : List ℕ) (k : ℕ)
    (inv : IsAsl s (xs ++ ys) (f ∷ fs)) (sorted : Sorted 0 (keys_of xs ++ k ∷ keys_of ys)) where
  abbrev temp : ℕ
  temp = last dummy_head (semds_of xs)

  abbrev after_link : Semds
  after_link = linked s.semds temp f (start_of ys) k

  Distinct-parts : Distinct ((semds_of xs ++ semds_of ys) ++ f ∷ fs)
  Distinct-parts = rw (← semds_of-append xs ys) inv.distinct

  valid_parts : AllTrue (in_range max_proc) ((semds_of xs ++ semds_of ys) ++ f ∷ fs)
  valid_parts = rw (← semds_of-append xs ys) inv.valid

  in_parts :
      (b : ℕ) → has b ((semds_of xs ++ semds_of ys) ++ f ∷ fs) ≡ true → in_range max_proc b ≡ true
  in_parts b m =
      AllTrue-has (in_range max_proc) b ((semds_of xs ++ semds_of ys) ++ f ∷ fs) valid_parts m

  has-parts :
      (b : ℕ)
      → has b ((semds_of xs ++ semds_of ys) ++ f ∷ fs)
        ≡ ((has b (semds_of xs) || has b (semds_of ys)) || has b (f ∷ fs))
  has-parts b =
      has-append b (semds_of xs ++ semds_of ys) (f ∷ fs)
      ∙ ap (λ t. t || has b (f ∷ fs)) (has-append b (semds_of xs) (semds_of ys))

  -- The free descriptor is none of the list, and no dummy node.
  f_out : has f (semds_of xs ++ semds_of ys) ≡ false
  f_out = ground (
    arith,
    Distinct-apart f (semds_of xs ++ semds_of ys) (f ∷ fs) Distinct-parts,
    Bool-cases (has f (semds_of xs ++ semds_of ys)),
  )

  f_head : (f == dummy_head) ≡ false
  f_head = ground (arith, in_parts f, has-parts f)

  f_free : has f fs ≡ false
  f_free = (Distinct-right (semds_of xs ++ semds_of ys) (f ∷ fs) Distinct-parts).0

  dummy_out : has dummy_head ((semds_of xs ++ semds_of ys) ++ f ∷ fs) ≡ false
  dummy_out =
      AllTrue-out (in_range max_proc) dummy_head ((semds_of xs ++ semds_of ys) ++ f ∷ fs) refl
        valid_parts

  -- The descriptor that the new one is linked behind is none of the others.
  temp_ne : (b : ℕ) → (has b (semds_of ys) || has b (f ∷ fs)) ≡ true → (b == temp) ≡ false
  temp_ne b m = ground (
    arith,
    has-last dummy_head (semds_of xs),
    has-parts b,
    has-append b (semds_of xs) (semds_of ys),
    dummy_out,
    has-append b (semds_of xs ++ semds_of ys) (f ∷ fs),
    Distinct-apart b (semds_of xs ++ semds_of ys) (f ∷ fs) Distinct-parts,
    Distinct-apart b (semds_of xs) (semds_of ys)
        (Distinct-left (semds_of xs ++ semds_of ys) (f ∷ fs) Distinct-parts),
  )

  f_ne :
      (b : ℕ) → (has b (semds_of xs) || (has b (semds_of ys) || has b fs)) ≡ true → (b == f) ≡ false
  f_ne b m = ground (arith, f_out, f_free, has-append f (semds_of xs) (semds_of ys))

  pub link-Around : Around (record s { semds = after_link }) xs f k [] ys fs
  link-Around =
      let (before, after) = Run-split s.semds s.procs dummy_head xs ys inv.run in
      let own = Distinct-left (semds_of xs ++ semds_of ys) (f ∷ fs) Distinct-parts in
      let next : after_link.s_next f ≡ start_of ys = ground (arith, temp_ne f) in
      let spare : (b : ℕ) → has b (semds_of ys) ≡ true → after_link.s_next b ≡ s.semds.s_next b =
        λ b m. ground (arith, temp_ne b, f_ne b) in
      record {
        head = inv.head;
        before =
            Run-frame s.semds after_link s.procs s.procs dummy_head xs before
              (
                ground (arith, dummy_out, has-parts dummy_head),
                Distinct-left (semds_of xs) (semds_of ys) own,
              )
              (λ b m ne. ground (arith, f_ne b, f_head)) (λ b m. ground (arith, f_ne b))
              (λ b m. (refl, refl, refl));
        link = update_self (update s.semds.s_next f (start_of ys)) temp f;
        key = update_self s.semds.s_sem_add f k;
        queued = record {
          tail = update_self s.semds.s_proc_q f null;
          links = tt;
          distinct = tt;
          valid = tt;
        };
        waits = tt;
        after =
            Run-restart s.semds after_link s.procs temp f ys after next
              (Distinct-right (semds_of xs) (semds_of ys) own)
              (λ b m. (spare b m, ground (arith, f_ne b), ground (arith, f_ne b)));
        end =
            end-restart s.semds after_link temp f ys
              (subst (λ b. s.semds.s_next b ≡ dummy_tail)
                (ap (last dummy_head) (semds_of-append xs ys)
                  ∙ last_append dummy_head (semds_of xs) (semds_of ys))
                inv.end)
              next spare;
        top = ground (arith, inv.top, in_parts f, has-parts f);
        sorted = sorted;
        free =
            FreeChain-frame s.semds.s_next after_link.s_next (s.semds.s_next f) fs inv.free.1
              (λ b m. ground (arith, temp_ne b, f_ne b));
        distinct = Distinct-shift (semds_of xs) (semds_of ys) f fs Distinct-parts;
        valid = AllTrue-of_has (in_range max_proc) ((semds_of xs ++ f ∷ semds_of ys) ++ fs) (λ b m.
            in_parts b (
              ground (
                arith,
                has-parts b,
                has-append b (semds_of xs ++ f ∷ semds_of ys) fs,
                has-append b (semds_of xs) (f ∷ semds_of ys),
              )));
        apart = rw (← pcbs_of-append xs ys) inv.apart;
      }

-- The keys stay sorted where a new one goes between the entries below it and the others.
pub Sorted-new :
    (lo k : ℕ) (es : List Entry)
    → Sorted lo (keys_of es)
    → lo < k
    → k < null
    → has k (keys_of es) ≡ false
    → Sorted lo (keys_of (behind k es) ++ k ∷ keys_of (ahead k es))
unfolding behind ahead
Sorted-new lo k [] h l b out = (l, b, tt)
Sorted-new lo k (e ∷ es) h l b out = ground (arith, Sorted-new e.sem_add k es h.2)
