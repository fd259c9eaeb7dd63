-- ===== src/Support/Pool.antt =====
-- The swap pool: each occupied frame holds one page, whose page table entry shows that frame.
use Prim.Native.Nat.{bit_and, bit_or}
use mathlib.Core.Path.{sym}
use os_fall_2021_project.Prelude.{
  ℕ, ◌≡◌, refl, true, false, Bool, not, ◌*◌, ◌/◌, ◌%◌, ◌^◌, ◌<◌, ◌==◌, ◌&&◌, inl, inr, Option, none,
  some, arith, ap, ◌∙◌, Bool-cases,
}
use os_fall_2021_project.Machine.Types.{Support}
use os_fall_2021_project.Support.{Frame}
use os_fall_2021_project.Support.Vm.{pool_size}
use os_fall_2021_project.Support.InitProc.{pg_max}
use os_fall_2021_project.Support.Pages.{all_below-lt}

-- The low word of an entry, that of a page in the frame `i`, and its valid bit.
abbrev pub lo : (ℕ → Support) → (o page : ℕ) → ℕ
lo m o page = ((m o).sup_private_pg_tbl page).entry_lo

abbrev pub frame_lo : ℕ → ℕ
frame_lo i = bit_or (bit_or (i * 2 ^ 12 % 2 ^ 32) 0x200) 0x400

abbrev pub is_valid : ℕ → Bool
is_valid w = not (bit_and w 0x200 == 0)

abbrev pub unmap : ℕ → ℕ
unmap w = bit_and w 0xffff_fdff

pub frame_lo-is_valid : (i : ℕ) → i < pool_size → is_valid (frame_lo i) ≡ true
frame_lo-is_valid i h = all_below-lt (λ i. is_valid (frame_lo i)) pool_size i refl h

pub unmap-frame_lo : (i : ℕ) → i < pool_size → not (is_valid (unmap (frame_lo i))) ≡ true
unmap-frame_lo i h = all_below-lt (λ i. not (is_valid (unmap (frame_lo i)))) pool_size i refl h

frame_lo-index : (i : ℕ) → i < pool_size → (frame_lo i / 2 ^ 12 == i) ≡ true
frame_lo-index i h = all_below-lt (λ i. frame_lo i / 2 ^ 12 == i) pool_size i refl h

-- A pointer names one page.
owner_of : Option (ℕ × ℕ) → ℕ
owner_of none = 0
owner_of (some (o, page)) = o

page_of : Option (ℕ × ℕ) → ℕ
page_of none = 0
page_of (some (o, page)) = page

pub names_same :
    (x : Option (ℕ × ℕ)) (a b c d : ℕ)
    → x ≡ some (a, b)
    → x ≡ some (c, d)
    → ((a == c) && (b == d)) ≡ true
unfolding owner_of page_of
names_same x a b c d e f =
    let owner : a ≡ c = ap owner_of (sym e ∙ f) in
    let page : b ≡ d = ap page_of (sym e ∙ f) in ground arith

pub lo_same : (m : ℕ → Support) (a b c d : ℕ) → ((a == c) && (b == d)) ≡ true → lo m a b ≡ lo m c d
lo_same m a b c d e =
    let owner : a ≡ c = ground arith in
    let page : b ≡ d = ground arith in ap (λ x. lo m x b) owner ∙ ap (λ x. lo m c x) page

-- The frame `f`, which has the number `i`, holds a page of a process in `user`: it names the process and
-- the page, and the entry of the page is valid and shows the frame.
pub record Held (user : ℕ → Bool) (m : ℕ → Support) (f : Frame) (i : ℕ) : Type 0 where
  pub owner : ℕ
  pub page : ℕ
  pub pgptr : f.pgptr ≡ some (owner, page)
  pub known : user owner ≡ true
  pub id : f.id ≡ (m owner).sup_asid
  pub page_no : f.page_no ≡ page
  pub entry : lo m owner page ≡ frame_lo i

abbrev pub is_free : Frame → Bool
is_free f = f.id == 0xffff_ffff

-- Some occupied frame names the page.
pub record Mapped (pool : ℕ → Frame) (o page : ℕ) : Type 0 where
  pub frame : ℕ
  pub below : frame < pool_size
  pub taken : is_free (pool frame) ≡ false
  pub names : (pool frame).pgptr ≡ some (o, page)

-- The invariant: the occupied frames hold pages, and each valid page of a process in `user` is in one.
pub record IsPool (user : ℕ → Bool) (m : ℕ → Support) (pool : ℕ → Frame) : Type 0 where
  pub held : (i : ℕ) → i < pool_size → is_free (pool i) ≡ false → Held user m (pool i) i
  pub mapped :
      (o page : ℕ)
      → user o ≡ true
      → page < pg_max
      → is_valid (lo m o page) ≡ true
      → Mapped pool o page

abbrev pub free_frame : Frame
free_frame = record { id = 0xffff_ffff; page_no = 0; pgptr = none }

-- Two frames hold two pages.
pub Held-apart :
    {user : ℕ → Bool} {m : ℕ → Support} {f g : Frame} (i j : ℕ)
    → (h : Held user m f i) → (k : Held user m g j) → i < pool_size
    → j < pool_size
    → (i == j) ≡ false
    → ((h.owner == k.owner) && (h.page == k.page)) ≡ false
Held-apart {m = m} i j h k hi hj ne =
    elim (Bool-cases ((h.owner == k.owner) && (h.page == k.page))) [
      | inl e ↦
          let same : frame_lo i / 2 ^ 12 ≡ frame_lo j / 2 ^ 12 =
            ap (λ w. w / 2 ^ 12)
              (sym h.entry ∙ lo_same m h.owner h.page k.owner k.page e ∙ k.entry) in
          ground (arith, same, frame_lo-index i hi, frame_lo-index j hj)
      | inr e ↦ e
    ]
