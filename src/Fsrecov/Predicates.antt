-- ===== src/Fsrecov/Predicates.antt =====
-- What the predicates on directory entries of M6-fsrecov/fsrecov.c tell apart, and what the checksum
-- of a short name detects.
use nju_os_workbench.Base.{zero, suc, sym, ◌∙◌, refl, ℕ, ◌+◌, ◌<◌, ◌≡◌, ◌≢◌, true, false, arith}
use nju_os_workbench.Base.Memory.{Mem}
use nju_os_workbench.Fsrecov.Entry.{
  is_dirent_basic, is_dirent_long, checksum_step, u16, checksum_loop, calc_checksum,
}

-- every byte of memory is below 256
abbrev pub IsMemory : Mem → Type 0
IsMemory m = (p : ℕ) → m p < 256

-- A long entry is not taken for a short one, in an image with less than 65535 clusters, where the
-- fourth character of the second part of its name, which a short entry has as the high half of its
-- cluster number, is not NUL.
pub is_dirent_long-basic :
    (total_clusters : ℕ) (m : Mem) (p : ℕ)
    → IsMemory m
    → total_clusters < 65535
    → u16 m (p + 20) ≢ 0
    → is_dirent_long m p ≡ true
    → is_dirent_basic total_clusters m p ≡ false
unfolding is_dirent_long is_dirent_basic
is_dirent_long-basic total_clusters m p bytes small ne long =
    ground (arith, bytes (p + 20), bytes (p + 21))

checksum_step-sum :
    (sum sum' c : ℕ)
    → sum < 256
    → sum' < 256
    → c < 256
    → checksum_step sum c ≡ checksum_step sum' c
    → sum ≡ sum'
checksum_step-sum sum sum' c lt lt' ltc e = ground arith

checksum_loop-sum :
    (n : ℕ) (m : Mem) (p sum sum' : ℕ)
    → IsMemory m
    → sum < 256
    → sum' < 256
    → checksum_loop n m p sum ≡ checksum_loop n m p sum'
    → sum ≡ sum'
unfolding checksum_loop
checksum_loop-sum zero m p sum sum' bytes lt lt' e = e
checksum_loop-sum (suc n) m p sum sum' bytes lt lt' e =
    checksum_step-sum sum sum' (m p) lt lt' (bytes p) (
      checksum_loop-sum n m (p + 1) (checksum_step sum (m p)) (checksum_step sum' (m p)) bytes
        (omega arith) (omega arith) e)

checksum_loop-ext :
    (n : ℕ) (m g : Mem) (p q sum : ℕ)
    → ((j : ℕ) → j < n → m (p + j) ≡ g (q + j))
    → checksum_loop n m p sum ≡ checksum_loop n g q sum
unfolding checksum_loop
checksum_loop-ext zero m g p q sum same = refl
checksum_loop-ext (suc n) m g p q sum same =
    let e : m p ≡ g q = ground (arith, same 0) in
    rw e (
      checksum_loop-ext n m g (p + 1) (q + 1) (checksum_step sum (g q))
        (λ j lt. ground (arith, same (suc j))))

checksum_step-byte :
    (sum c d : ℕ) → c < 256 → d < 256 → checksum_step sum c ≡ checksum_step sum d → c ≡ d
checksum_step-byte sum c d lt lt' e = ground arith

checksum_loop-differs :
    (n : ℕ) (m g : Mem) (p q sum i : ℕ)
    → IsMemory m
    → IsMemory g
    → i < n
    → ((j : ℕ) → j < n → j ≢ i → m (p + j) ≡ g (q + j))
    → m (p + i) ≢ g (q + i)
    → checksum_loop n m p sum ≢ checksum_loop n g q sum
unfolding checksum_loop
checksum_loop-differs zero m g p q sum i bm bg lt same ne e = absurd (omega arith)
checksum_loop-differs (suc n) m g p q sum zero bm bg lt same ne e =
    let other : m p ≢ g q = ground arith in
    let tail =
      checksum_loop-ext n m g (p + 1) (q + 1) (checksum_step sum (m p))
        (λ j lt'. ground (arith, same (suc j))) in
    other (
      checksum_step-byte sum (m p) (g q) (bm p) (bg q)
        (checksum_loop-sum n g (q + 1) _ _ bg (omega arith) (omega arith) (sym tail ∙ e)))
checksum_loop-differs (suc n) m g p q sum (suc i) bm bg lt same ne e =
    let first : m p ≡ g q = ground (arith, same 0) in
    checksum_loop-differs n m g (p + 1) (q + 1) (checksum_step sum (g q)) i bm bg (omega arith)
      (λ j lt' ne'. ground (arith, same (suc j))) (ground arith) (rw first at e)

-- Two short names that differ in exactly one byte have different checksums.
pub calc_checksum-differs :
    (m g : Mem) (p q i : ℕ)
    → IsMemory m
    → IsMemory g
    → i < 11
    → ((j : ℕ) → j < 11 → j ≢ i → m (p + j) ≡ g (q + j))
    → m (p + i) ≢ g (q + i)
    → calc_checksum m p ≢ calc_checksum g q
unfolding calc_checksum
calc_checksum-differs m g p q i bm bg lt same ne =
    checksum_loop-differs 11 m g p q 0 i bm bg lt same ne
