-- ===== src/Fsrecov/Searching.antt =====
-- The scan of the clusters by M6-fsrecov/fsrecov.c: it ends, and what it leaves waiting.
use nju_os_workbench.Base.{
  ℕ, zero, suc, ◌+◌, ◌-◌, ◌*◌, ◌/◌, ◌%◌, ◌≤◌, ◌<◌, ◌≡◌, ◌⊎◌, inl, inr, refl, sym, subst, true,
  false, not, ◌&&◌, arith, ◌==◌, if◌then◌else◌, ltb, Bool-cases,
}
use nju_os_workbench.Base.Memory.{Mem}
use nju_os_workbench.Fsrecov.Entry.{
  is_dirent_basic, is_dirent_long, ldir_ord, is_last_long, is_dirent_cluster_possibly,
}
use nju_os_workbench.Fsrecov.Disk.{Disk, first_byte_ptr_of_cluster}
use nju_os_workbench.Fsrecov.Scan.{
  State, ok, handle, push_head, push_tail, search_loop, search_from, search_cluster, scan_clusters,
  cluster_bytes,
}
use nju_os_workbench.Fsrecov.Bounds.{WellFormed, first_byte_ptr_of_cluster-inside, mul_pos}
use nju_os_workbench.Fsrecov.Waiting.{
  Ends, Ends-bind, IsPlace, Waits, handle-Waits, push_head-Waits, push_tail-Waits,
}

left_over-Waits :
    (disk : Disk) (m : Mem) (curr n p : ℕ) (s : State)
    → Waits disk m s
    → (curr ≡ p) ⊎ (IsPlace disk curr × (is_dirent_long m curr ≡ true))
    → Ends
        (Waits disk m)
        (if curr == p then ok s else push_head (record { entry = curr; len = n }) s)
left_over-Waits disk m curr n p s w start = elim (Bool-cases (curr == p)) [
  | inl e ↦ rw e w
  | inr e ↦ elim start [
    | inl same ↦ absurd (ground arith)
    | inr (place, long) ↦
        rw e (push_head-Waits disk m (record { entry = curr; len = n }) s w place long)
  ]
]

-- The loop is given a round for each 32 bytes in front of the end of the cluster, and one more.
search_loop-Waits :
    (fuel : ℕ) (disk : Disk) (m : Mem) (stop curr n p : ℕ) (s : State)
    → Waits disk m s
    → (curr ≡ p) ⊎ (IsPlace disk curr × (is_dirent_long m curr ≡ true))
    → disk.base ≤ p
    → stop ≤ disk.last + 1
    → (stop - p) % 32 ≡ 0
    → stop ≤ p + 32 * fuel
    → Ends (Waits disk m) (search_loop (suc fuel) disk stop curr n p s)
unfolding search_loop
search_loop-Waits zero disk m stop curr n p s w start from to whole le =
    let no_basic : (ltb p stop && is_dirent_basic disk.total_clusters s.mem p) ≡ false =
      ground arith in
    let no_long : (ltb p stop && is_dirent_long s.mem p) ≡ false = ground arith in
    rw (no_basic, no_long, search_loop) (left_over-Waits disk m curr n p s w start)
search_loop-Waits (suc fuel) disk m stop curr n p s w start from to whole le =
    elim (Bool-cases (ltb p stop && is_dirent_basic disk.total_clusters s.mem p)) [
      | inl basic ↦
          rw (basic, search_loop)
            (Ends-bind (Waits disk m) _ (handle disk curr (n + 1) s) _
              (handle-Waits disk m curr (n + 1) s w)
              (λ s' w'.
                search_loop-Waits fuel disk m stop (p + 32) 0 (p + 32) s' w' (inl refl)
                  (omega arith) to (omega arith) (omega arith)))
      | inr other ↦
          rw (other, search_loop)
            (elim (Bool-cases (ltb p stop && is_dirent_long s.mem p)) [
              | inl long ↦
                  rw (long, search_loop)
                    (search_loop-Waits fuel disk m stop curr (n + 1) (p + 32) s w
                      (inr (still_long disk m s curr p stop w start from to whole long))
                      (omega arith) to (omega arith) (omega arith))
              | inr neither ↦ rw (neither, search_loop) (left_over-Waits disk m curr n p s w start)
            ])
    ]
  where
    still_long :
        (disk : Disk) (m : Mem) (s : State) (curr p stop : ℕ)
        → Waits disk m s
        → (curr ≡ p) ⊎ (IsPlace disk curr × (is_dirent_long m curr ≡ true))
        → disk.base ≤ p
        → stop ≤ disk.last + 1
        → (stop - p) % 32 ≡ 0
        → (ltb p stop && is_dirent_long s.mem p) ≡ true
        → IsPlace disk curr × (is_dirent_long m curr ≡ true)
    still_long disk m s curr p stop w start from to whole e = ground (arith, w.memory)

-- a cluster in the image, of whole entries
pub record IsCluster (disk : Disk) (start : ℕ) : Type 0 where
  pub from : disk.base ≤ start
  pub to : start + cluster_bytes disk ≤ disk.last + 1
  pub whole : cluster_bytes disk % 32 ≡ 0
  pub some_bytes : 1 ≤ cluster_bytes disk

search_from-Waits :
    (disk : Disk) (m : Mem) (start n : ℕ) (s : State)
    → IsCluster disk start
    → Waits disk m s
    → Ends (Waits disk m) (search_from disk start (start + 32 * n) s)
unfolding search_from
search_from-Waits disk m start n s c w =
    let e : cluster_bytes disk / 32 + 2 ≡ suc (cluster_bytes disk / 32 + 1) = omega arith in
    rw e (
      search_loop-Waits (cluster_bytes disk / 32 + 1) disk m (start + cluster_bytes disk)
        (start + 32 * n) 0 (start + 32 * n) s w (inl refl) (omega (arith, c.from)) c.to
        (omega (arith, c.whole)) (omega arith))

IsCluster-IsPlace : (disk : Disk) (start : ℕ) → IsCluster disk start → IsPlace disk start
IsCluster-IsPlace disk start c = (c.from, omega (arith, c.to, c.whole, c.some_bytes))

search_cluster-Waits :
    (disk : Disk) (m : Mem) (p : ℕ) (s : State)
    → IsCluster disk p
    → Waits disk m s
    → Ends (Waits disk m) (search_cluster disk p s)
unfolding search_cluster
search_cluster-Waits disk m p s c w =
    let start : p ≡ p + 32 * 0 = omega arith in
    elim (Bool-cases (is_dirent_long s.mem p && not (is_last_long (ldir_ord s.mem p)))) [
      | inl long ↦ rw long (
          Ends-bind (Waits disk m) _
            (push_tail (record { entry = p; len = ldir_ord s.mem p + 1 }) s) _
            (push_tail-Waits disk m _ s w (IsCluster-IsPlace disk p c, ground (arith, w.memory)))
            (λ s' w'. search_from-Waits disk m p (ldir_ord s.mem p + 1) s' c w'))
      | inr other ↦ rw other (elim (Bool-cases (is_dirent_basic disk.total_clusters s.mem p)) [
        | inl basic ↦ rw basic (
            Ends-bind (Waits disk m) _ (push_tail (record { entry = p; len = 1 }) s) _
              (push_tail-Waits disk m _ s w (IsCluster-IsPlace disk p c, ground (arith, w.memory)))
              (λ s' w'. search_from-Waits disk m p 1 s' c w'))
        | inr neither ↦ rw neither (
            subst (λ q. Ends (Waits disk m) (search_from disk p q s)) (sym start)
              (search_from-Waits disk m p 0 s c w))
      ])
    ]

mul_whole : (a b : ℕ) → a % 32 ≡ 0 → (a * b) % 32 ≡ 0
mul_whole a b e = let split : a ≡ 32 * (a / 32) = omega arith in rw split (omega arith)

first_byte_ptr_of_cluster-IsCluster :
    (disk : Disk) (clus : ℕ)
    → WellFormed disk
    → 2 ≤ clus
    → clus < disk.total_clusters + 2
    → IsCluster disk (first_byte_ptr_of_cluster disk clus)
first_byte_ptr_of_cluster-IsCluster disk clus wf ge lt =
    let (place, fits) = first_byte_ptr_of_cluster-inside disk clus wf ge lt in
    record {
      from = omega arith;
      to = fits;
      whole = mul_whole disk.byts_per_sec disk.sec_per_clus wf.entries;
      some_bytes = mul_pos disk.byts_per_sec disk.sec_per_clus wf.sectors wf.clusters;
    }

-- In a well-formed image the scan of the clusters ends, unless it writes behind an array. At most 10
-- heads and 10 tails then wait; every head starts with a long entry of the image and every tail
-- with an entry of it, which is what `matched` asserts of them; and the memory is what it was.
pub scan_clusters-Waits :
    (n : ℕ) (disk : Disk) (m : Mem) (clus : ℕ) (s : State)
    → WellFormed disk
    → 2 ≤ clus
    → clus + n ≤ disk.total_clusters + 2
    → Waits disk m s
    → Ends (Waits disk m) (scan_clusters n disk clus s)
unfolding scan_clusters
scan_clusters-Waits zero disk m clus s wf ge le w = w
scan_clusters-Waits (suc n) disk m clus s wf ge le w =
    let start = first_byte_ptr_of_cluster disk clus in
    Ends-bind (Waits disk m) _
      (if is_dirent_cluster_possibly disk.total_clusters s.mem start
        then search_cluster disk start s
        else ok s)
      _
      (elim (Bool-cases (is_dirent_cluster_possibly disk.total_clusters s.mem start)) [
        | inl e ↦ rw e (
            search_cluster-Waits disk m start s
              (first_byte_ptr_of_cluster-IsCluster disk clus wf ge (omega arith)) w)
        | inr e ↦ rw e w
      ])
      (λ s' w'. scan_clusters-Waits n disk m (clus + 1) s' wf (omega arith) (omega arith) w')
