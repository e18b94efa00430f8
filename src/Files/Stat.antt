-- ===== src/Files/Stat.antt =====
-- kernel/fs.c: the mode that fs_stat fills in where the driver leaves it to it.
use asterisk.Base.{
  ◌⊎◌, inl, inr, ℤ, pos, neg, negsuc, ℕ, zero, suc, ◌<◌, ◌≡◌, ◌≢◌, ◌∙◌, sym, refl, arith, Bool,
  true, false, not, ◌&&◌, Option, none, some, ◌==◌, if◌then◌else◌,
}
use Prim.Native.Nat.{bit_and}

-- `FileType` of kernel/fs.h
abbrev pub ft_file : ℕ
ft_file = 1

abbrev pub ft_character_device : ℕ
ft_character_device = 2

abbrev pub ft_block_device : ℕ
ft_block_device = 3

abbrev pub ft_pipe : ℕ
ft_pipe = 4

abbrev pub ft_symbolic_link : ℕ
ft_symbolic_link = 5

abbrev pub ft_directory : ℕ
ft_directory = 128

-- The modes, named as the macros of the function without their underscores; a mode is a number.
abbrev pub s_ifdir : ℕ
s_ifdir = 0x4000

abbrev pub s_ifchr : ℕ
s_ifchr = 0x2000

abbrev pub s_ifblk : ℕ
s_ifblk = 0x6000

abbrev pub s_ifreg : ℕ
s_ifreg = 0x8000

abbrev pub s_ififo : ℕ
s_ififo = 0x1000

abbrev pub s_iflnk : ℕ
s_iflnk = 0xA000

-- `(type & flag) == flag`
abbrev pub is_type : (type flag : ℕ) → Bool
is_type type flag = bit_and type flag == flag

-- The chain of tests, with the mode that was in `buf->st_mode` before.
abbrev pub stat_mode : (mode type : ℕ) → ℕ
stat_mode mode type =
    if is_type type ft_directory
    then s_ifdir
    else if is_type type ft_character_device
    then s_ifchr
    else if is_type type ft_block_device
    then s_ifblk
    else if is_type type ft_pipe
    then s_ififo
    else if is_type type ft_symbolic_link
    then s_iflnk
    else if is_type type ft_file
    then s_ifreg
    else mode

abbrev is_one : ℤ → Bool
is_one (pos n) = n == 1
is_one (negsuc n) = false

-- `driver` is what the `stat` of the node's driver returns, with the mode and the size that it
-- leaves.
unfoldable pub fs_stat : (driver : Option (ℤ × (ℕ × ℕ))) → (mode size type length : ℕ) → ℤ × (ℕ × ℕ)
fs_stat none mode size type length = (neg 1, (mode, size))
fs_stat (some (val, (mode', size'))) mode size type length =
    if is_one val then (pos 0, (stat_mode mode' type, length)) else (val, (mode', size'))

all_below : ℕ → (ℕ → Bool) → Bool
all_below zero p = true
all_below (suc n) p = p n && all_below n p

all_below-at : (n : ℕ) (p : ℕ → Bool) (x : ℕ) → all_below n p ≡ true → x < n → p x ≡ true
unfolding all_below
all_below-at zero p x h lt = absurd (omega arith)
all_below-at (suc n) p x h lt = ground (arith, all_below-at n p x)

-- Neither mode is ever filled in.
spared : ℕ → Bool
spared m = not (m == s_ifblk) && not (m == s_iflnk)

spared_table : all_below 512 (λ t. spared (stat_mode s_ifdir t)) ≡ true
unfolding all_below spared
spared_table = refl

-- A chain of tests comes to one of its modes, whatever is at its end, or to that.
chain-end :
    (b₁ b₂ b₃ b₄ b₅ b₆ : Bool) (m₁ m₂ m₃ m₄ m₅ m₆ m n : ℕ)
    → let chain = λ (x : ℕ).
      if b₁
      then m₁
      else if b₂
      then m₂
      else if b₃
      then m₃
      else if b₄
      then m₄
      else if b₅
      then m₅
      else if b₆
      then m₆
      else x in
      (chain m ≡ chain n) ⊎ (chain m ≡ m)
chain-end true b₂ b₃ b₄ b₅ b₆ m₁ m₂ m₃ m₄ m₅ m₆ m n = inl refl
chain-end false true b₃ b₄ b₅ b₆ m₁ m₂ m₃ m₄ m₅ m₆ m n = inl refl
chain-end false false true b₄ b₅ b₆ m₁ m₂ m₃ m₄ m₅ m₆ m n = inl refl
chain-end false false false true b₅ b₆ m₁ m₂ m₃ m₄ m₅ m₆ m n = inl refl
chain-end false false false false true b₆ m₁ m₂ m₃ m₄ m₅ m₆ m n = inl refl
chain-end false false false false false true m₁ m₂ m₃ m₄ m₅ m₆ m n = inl refl
chain-end false false false false false false m₁ m₂ m₃ m₄ m₅ m₆ m n = inr refl

spared-ne : (m : ℕ) → spared m ≡ true → (m ≢ s_ifblk) × (m ≢ s_iflnk)
unfolding spared
spared-ne m e = (λ same. ground arith, λ same. ground arith)

stat_mode-spared :
    (mode type : ℕ)
    → type < 512
    → mode ≢ s_ifblk
    → mode ≢ s_iflnk
    → (stat_mode mode type ≢ s_ifblk) × (stat_mode mode type ≢ s_iflnk)
stat_mode-spared mode type small blk lnk =
    elim (chain-end (is_type type ft_directory) (is_type type ft_character_device)
      (is_type type ft_block_device) (is_type type ft_pipe) (is_type type ft_symbolic_link)
      (is_type type ft_file) s_ifdir s_ifchr s_ifblk s_ififo s_iflnk s_ifreg mode s_ifdir) [
        | inr e ↦ (λ b. blk (sym e ∙ b), λ l. lnk (sym e ∙ l))
        | inl e ↦
            (let row =
                all_below-at 512 (λ t. spared (stat_mode s_ifdir t)) type spared_table small in
              let (no_block, no_link) = spared-ne (stat_mode s_ifdir type) row in
              (λ b. no_block (sym e ∙ b), λ l. no_link (sym e ∙ l)))
      ]

-- Where the driver leaves the mode to fs_stat, it never says that the node is a block device or a
-- symbolic link, whatever of the first nine bits its type has, unless the driver has already said
-- so: the test for a character device comes first and its bit is one of a block device's, likewise
-- for pipes and links.
pub fs_stat-spares :
    (mode before size size_before type length : ℕ)
    → type < 512
    → mode ≢ s_ifblk
    → mode ≢ s_iflnk
    → (let (result, (filled, _)) =
          fs_stat (some (pos 1, (mode, size))) before size_before type length in
        (result ≡ pos 0) × (filled ≢ s_ifblk) × (filled ≢ s_iflnk))
unfolding fs_stat
fs_stat-spares mode before size size_before type length small blk lnk =
    let (no_block, no_link) = stat_mode-spared mode type small blk lnk in (refl, no_block, no_link)
