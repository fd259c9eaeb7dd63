-- ===== src/Asl/Init.antt =====
-- `initASL` makes the empty list, with all descriptors free.
use os_fall_2021_project.Prelude.{ℕ, ◌≡◌, ◌==◌, ◌||◌, true, refl, List, [], ◌∷◌}
use os_fall_2021_project.Machine.Word.{null}
use os_fall_2021_project.Machine.Outcome.{Returns, returns, for_range}
use os_fall_2021_project.Pcb.Seg.{last}
use os_fall_2021_project.Asl.{Asl, store, init_asl}
use os_fall_2021_project.Asl.Entries.{IsAsl}

abbrev pub all_semds : List ℕ
all_semds =
    1 ∷ 2 ∷ 3 ∷ 4 ∷ 5 ∷ 6 ∷ 7 ∷ 8 ∷ 9 ∷ 10 ∷ 11 ∷ 12 ∷ 13 ∷ 14 ∷ 15 ∷ 16 ∷ 17 ∷ 18 ∷ 19 ∷ 20 ∷ []

-- Where the last descriptor's link is null, which static storage makes it, no semaphore has an entry, and the 20 descriptors are free.
pub init_asl-IsAsl :
    (s : Asl)
    → (s.semds.s_next 20 == null || s.semds.s_next 20 == 0) ≡ true
    → Returns (λ _ semds. IsAsl (record s { semds = semds }) [] all_semds) (init_asl s.semds)
unfolding init_asl store for_range last
init_asl-IsAsl s h = returns (record {
  head = refl;
  run = tt;
  end = refl;
  top = refl;
  sorted = tt;
  free = (
    refl,
    (
      refl,
      (
        refl,
        (
          refl,
          (
            refl,
            (
              refl,
              (
                refl,
                (
                  refl,
                  (
                    refl,
                    (
                      refl,
                      (
                        refl,
                        (refl, (refl, (refl, (refl, (refl, (refl, (refl, (refl, (refl, h))))))))),
                      ),
                    ),
                  ),
                ),
              ),
            ),
          ),
        ),
      ),
    ),
  );
  distinct = (
    refl,
    (
      refl,
      (
        refl,
        (
          refl,
          (
            refl,
            (
              refl,
              (
                refl,
                (
                  refl,
                  (
                    refl,
                    (
                      refl,
                      (
                        refl,
                        (refl, (refl, (refl, (refl, (refl, (refl, (refl, (refl, (refl, tt))))))))),
                      ),
                    ),
                  ),
                ),
              ),
            ),
          ),
        ),
      ),
    ),
  );
  valid = (
    refl,
    (
      refl,
      (
        refl,
        (
          refl,
          (
            refl,
            (
              refl,
              (
                refl,
                (
                  refl,
                  (
                    refl,
                    (
                      refl,
                      (
                        refl,
                        (refl, (refl, (refl, (refl, (refl, (refl, (refl, (refl, (refl, tt))))))))),
                      ),
                    ),
                  ),
                ),
              ),
            ),
          ),
        ),
      ),
    ),
  );
  apart = tt;
})
