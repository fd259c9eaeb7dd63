-- ===== src/Asl/Unlink.antt =====
-- `semdDealloc`: a descriptor without pcbs goes back to the free list.
use mathlib.Core.List.{append_assoc}
use os_fall_2021_project.Prelude.{
  ℕ, ◌≡◌, refl, true, false, ◌||◌, List, [], ◌∷◌, ◌++◌, arith, ◌==◌, has, Distinct, in_range,
  update, ◌∙◌, has-append, AllTrue-has, AllTrue-of_has, Distinct-left, Distinct-right,
  Distinct-apart, Distinct-middle, Distinct-insert, ap, update_self, AllTrue-out,
}
use os_fall_2021_project.Machine.Word.{null, max_proc}
use os_fall_2021_project.Pcb.Seg.{last, has-last}
use os_fall_2021_project.Asl.{Semds, Asl}
use os_fall_2021_project.Asl.Entries.{
  Entry, semds_of, keys_of, Run, Run-frame, Run-join, IsAsl, Sorted, dummy_head, dummy_tail,
  semds_of-append, keys_of-append, pcbs_of-append,
}
use os_fall_2021_project.Asl.Traverse.{start_of}
use os_fall_2021_project.Asl.Link.{FreeChain-frame, Run-restart, end-restart, last_append}
use os_fall_2021_project.Asl.Around.{Around}

-- What `semdDealloc` makes of the descriptors, `d` being behind `temp`.
abbrev pub unlinked : Semds → (temp d : ℕ) → Semds
unlinked sd temp d = record sd {
  s_next = update (update sd.s_next temp (sd.s_next d)) d sd.semd_free_h;
  semd_free_h = d;
  s_sem_add = update sd.s_sem_add d null;
  s_proc_q = update sd.s_proc_q d null;
}

Distinct-unshift :
    (xs ys : List ℕ) (f : ℕ) (fs : List ℕ)
    → Distinct ((xs ++ f ∷ ys) ++ fs)
    → Distinct ((xs ++ ys) ++ f ∷ fs)
Distinct-unshift xs ys f fs d =
    let cut = Distinct-middle xs f (ys ++ fs) (rw (← append_assoc xs (f ∷ ys) fs) d) in
    Distinct-insert (xs ++ ys) f fs (rw (append_assoc xs ys fs) cut.0)
      (rw (append_assoc xs ys fs) cut.1)

Sorted-drop :
    (lo : ℕ) (ks : List ℕ) (k : ℕ) (ls : List ℕ) → Sorted lo (ks ++ k ∷ ls) → Sorted lo (ks ++ ls)
Sorted-drop lo [] k [] h = tt
Sorted-drop lo [] k (l ∷ ls) h = (omega (arith, h.0, h.2.0), h.2.1, h.2.2)
Sorted-drop lo (x ∷ ks) k ls h = (h.0, h.1, Sorted-drop x ks k ls h.2)

module _ (s : Asl) (xs : List Entry) (d k : ℕ) (ys : List Entry) (fs : List ℕ)
    (around : Around s xs d k [] ys fs) where
  abbrev temp : ℕ
  temp = last dummy_head (semds_of xs)

  abbrev after_unlink : Semds
  after_unlink = unlinked s.semds temp d

  own : Distinct (semds_of xs ++ d ∷ semds_of ys)
  own = Distinct-left (semds_of xs ++ d ∷ semds_of ys) fs around.distinct

  has-parts :
      (b : ℕ)
      → has b ((semds_of xs ++ d ∷ semds_of ys) ++ fs)
        ≡ ((has b (semds_of xs) || has b (d ∷ semds_of ys)) || has b fs)
  has-parts b =
      has-append b (semds_of xs ++ d ∷ semds_of ys) fs
      ∙ ap (λ t. t || has b fs) (has-append b (semds_of xs) (d ∷ semds_of ys))

  in_parts :
      (b : ℕ) → has b ((semds_of xs ++ d ∷ semds_of ys) ++ fs) ≡ true → in_range max_proc b ≡ true
  in_parts b m =
      AllTrue-has (in_range max_proc) b ((semds_of xs ++ d ∷ semds_of ys) ++ fs) around.valid m

  dummy_out : has dummy_head ((semds_of xs ++ d ∷ semds_of ys) ++ fs) ≡ false
  dummy_out =
      AllTrue-out (in_range max_proc) dummy_head ((semds_of xs ++ d ∷ semds_of ys) ++ fs) refl
        around.valid

  unlink_temp_ne : (b : ℕ) → (has b (d ∷ semds_of ys) || has b fs) ≡ true → (b == temp) ≡ false
  unlink_temp_ne b m = ground (
    arith,
    has-last dummy_head (semds_of xs),
    has-parts b,
    dummy_out,
    has-append b (semds_of xs) (d ∷ semds_of ys),
    Distinct-apart b (semds_of xs ++ d ∷ semds_of ys) fs around.distinct,
    Distinct-apart b (semds_of xs) (d ∷ semds_of ys) own,
  )

  d_ne :
      (b : ℕ) → (has b (semds_of xs) || (has b (semds_of ys) || has b fs)) ≡ true → (b == d) ≡ false
  d_ne b m = ground (
    arith,
    Distinct-apart b (semds_of xs) (d ∷ semds_of ys) own,
    Distinct-right (semds_of xs) (d ∷ semds_of ys) own,
    Distinct-apart b (semds_of xs ++ d ∷ semds_of ys) fs around.distinct,
    has-append b (semds_of xs) (d ∷ semds_of ys),
  )

  d_in : in_range max_proc d ≡ true
  d_in = in_parts d (ground (arith, has-parts d))

  pub next_start :
      (zs : List Entry)
      → Run s.semds s.procs d zs
      → s.semds.s_next (last d (semds_of zs)) ≡ dummy_tail
      → s.semds.s_next d ≡ start_of zs
  unfolding last
  next_start [] r e = e
  next_start (z ∷ zs) r e = r.0

  pub unlink-IsAsl : IsAsl (record s { semds = after_unlink }) (xs ++ ys) (d ∷ fs)
  unlink-IsAsl =
      let next : after_unlink.s_next temp ≡ start_of ys =
        ground (arith, unlink_temp_ne d, next_start ys around.after around.end) in
      let spare : (b : ℕ) → has b (semds_of ys) ≡ true → after_unlink.s_next b ≡ s.semds.s_next b =
        λ b m. ground (arith, unlink_temp_ne b, d_ne b) in
      record {
        head = around.head;
        run =
            Run-join after_unlink s.procs dummy_head xs ys
              (Run-frame s.semds after_unlink s.procs s.procs dummy_head xs around.before
                (
                  ground (arith, dummy_out, has-parts dummy_head),
                  Distinct-left (semds_of xs) (d ∷ semds_of ys) own,
                )
                (λ b m ne. ground (arith, d_ne b, d_in)) (λ b m. ground (arith, d_ne b))
                (λ b m. (refl, refl, refl)))
              (Run-restart s.semds after_unlink s.procs d temp ys around.after next
                (Distinct-right (semds_of xs) (d ∷ semds_of ys) own).1
                (λ b m. (spare b m, ground (arith, d_ne b), ground (arith, d_ne b))));
        end =
            rw (semds_of-append xs ys, last_append dummy_head (semds_of xs) (semds_of ys))
              (end-restart s.semds after_unlink d temp ys around.end next spare);
        top = ground (arith, around.top, d_in);
        sorted =
            rw (keys_of-append xs ys) (Sorted-drop 0 (keys_of xs) k (keys_of ys) around.sorted);
        free = (
          refl,
          rw (update_self (update s.semds.s_next temp (s.semds.s_next d)) d s.semds.semd_free_h) (
              FreeChain-frame s.semds.s_next after_unlink.s_next s.semds.semd_free_h fs around.free
                (λ b m. ground (arith, unlink_temp_ne b, d_ne b))),
        );
        distinct =
            rw (semds_of-append xs ys)
              (Distinct-unshift (semds_of xs) (semds_of ys) d fs around.distinct);
        valid = rw (semds_of-append xs ys) (
            AllTrue-of_has (in_range max_proc) ((semds_of xs ++ semds_of ys) ++ d ∷ fs) (λ b m.
              in_parts b (
                ground (
                  arith,
                  has-parts b,
                  has-append b (semds_of xs ++ semds_of ys) (d ∷ fs),
                  has-append b (semds_of xs) (semds_of ys),
                ))));
        apart = rw (pcbs_of-append xs ys) around.apart;
      }
