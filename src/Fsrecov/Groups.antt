-- ===== src/Fsrecov/Groups.antt =====
-- What search_cluster of M6-fsrecov/fsrecov.c makes of the entries of a cluster.
use nju_os_workbench.Base.{
  ap, sym, ◌∙◌, ℕ, zero, suc, ◌+◌, ◌-◌, ◌*◌, ◌/◌, ◌≤◌, ◌≡◌, ◌⊎◌, inl, inr, refl, true, false, ◌&&◌,
  List, [], ◌∷◌, arith, ◌==◌, ltb,
}
use nju_os_workbench.Fsrecov.Scan.{
  Run, State, ok, Cmd, and_then, handle, push_head, search_loop, search_from, cluster_bytes,
}
use nju_os_workbench.Base.Memory.{Mem}
use nju_os_workbench.Fsrecov.Entry.{is_dirent_basic, is_dirent_long}
use nju_os_workbench.Fsrecov.Disk.{Disk}
use nju_os_workbench.Fsrecov.Waiting.{handle-cases}

-- `k` long entries from `p` on, none of which could be a short one
abbrev pub Longs : Disk → Mem → (p k : ℕ) → Type 0
Longs disk m p zero = Unit
Longs disk m p (suc k) =
    (is_dirent_long m p ≡ true)
    × (is_dirent_basic disk.total_clusters m p ≡ false)
    × Longs disk m (p + 32) k

-- From `p` on there are groups, each of so many long entries and a short one.
abbrev pub LaidOut : Disk → Mem → (p : ℕ) → List ℕ → Type 0
LaidOut disk m p [] = Unit
LaidOut disk m p (k ∷ ks) =
    Longs disk m p k
    × (is_dirent_basic disk.total_clusters m (p + 32 * k) ≡ true)
    × LaidOut disk m (p + 32 * k + 32) ks

-- behind the groups
abbrev pub after : (p : ℕ) → List ℕ → ℕ
after p [] = p
after p (k ∷ ks) = after (p + 32 * k + 32) ks

abbrev pub entries : List ℕ → ℕ
entries [] = 0
entries (k ∷ ks) = k + 1 + entries ks

-- each group is handled
unfoldable pub handle_groups : Disk → (p : ℕ) → List ℕ → Cmd
handle_groups disk p [] s = ok s
handle_groups disk p (k ∷ ks) s =
    and_then (handle disk p (k + 1) s) (handle_groups disk (p + 32 * k + 32) ks)

-- and the long entries that are left over wait for a short one
unfoldable pub wait_for_short : (p r : ℕ) → Cmd
wait_for_short p zero s = ok s
wait_for_short p (suc r) s = push_head (record { entry = p; len = suc r }) s

search_loop-long :
    (fuel : ℕ) (disk : Disk) (stop curr n p : ℕ) (s : State)
    → p + 32 ≤ stop
    → is_dirent_long s.mem p ≡ true
    → is_dirent_basic disk.total_clusters s.mem p ≡ false
    → search_loop (suc fuel) disk stop curr n p s
      ≡ search_loop fuel disk stop curr (n + 1) (p + 32) s
unfolding search_loop
search_loop-long fuel disk stop curr n p s le long other =
    let no_basic : (ltb p stop && is_dirent_basic disk.total_clusters s.mem p) ≡ false =
      ground arith in
    let e : (ltb p stop && is_dirent_long s.mem p) ≡ true = ground arith in
    rw (no_basic, e, search_loop) refl

search_loop-Longs :
    (k fuel : ℕ) (disk : Disk) (stop curr n p : ℕ) (s : State)
    → Longs disk s.mem p k
    → p + 32 * k ≤ stop
    → search_loop (k + fuel) disk stop curr n p s
      ≡ search_loop fuel disk stop curr (n + k) (p + 32 * k) s
unfolding search_loop
search_loop-Longs zero fuel disk stop curr n p s h le =
    let a : n + 0 ≡ n = omega arith in
    let b : p + 32 * 0 ≡ p = omega arith in
    let c : 0 + fuel ≡ fuel = omega arith in
    rw (a, b) (ap (λ (f : ℕ). search_loop f disk stop curr n p s) c)
search_loop-Longs (suc k) fuel disk stop curr n p s h le =
    let a : n + suc k ≡ n + 1 + k = omega arith in
    let b : p + 32 * suc k ≡ p + 32 + 32 * k = omega arith in
    let c : suc k + fuel ≡ suc (k + fuel) = omega arith in
    rw (a, b)
      (ap (λ (f : ℕ). search_loop f disk stop curr n p s) c
        ∙ (search_loop-long (k + fuel) disk stop curr n p s (omega arith) h.0 h.1
            ∙ search_loop-Longs k fuel disk stop curr (n + 1) (p + 32) s h.2 (omega arith)))

handle-then :
    (disk : Disk) (entry len : ℕ) (s : State) (k k' : Cmd)
    → ((s' : State) → s'.mem ≡ s.mem → k s' ≡ k' s')
    → and_then (handle disk entry len s) k ≡ and_then (handle disk entry len s) k'
handle-then disk entry len s k k' same = elim (handle-cases disk entry len s) [
  | inl e ↦ rw e refl
  | inr (inl e) ↦ rw e (same s refl)
  | inr (inr e) ↦ rw e (same _ refl)
]

-- nothing that looks like an entry, or the end
abbrev pub Stops : Disk → Mem → (stop p : ℕ) → Type 0
Stops disk m stop p =
    (stop ≤ p) ⊎ ((is_dirent_basic disk.total_clusters m p ≡ false) × (is_dirent_long m p ≡ false))

search_loop-Stops :
    (fuel r : ℕ) (disk : Disk) (stop p : ℕ) (s : State)
    → Stops disk s.mem stop (p + 32 * r)
    → search_loop (suc fuel) disk stop p r (p + 32 * r) s ≡ wait_for_short p r s
unfolding search_loop wait_for_short
search_loop-Stops fuel zero disk stop p s h =
    let no_basic : (ltb (p + 32 * 0) stop && is_dirent_basic disk.total_clusters s.mem (p + 32 * 0))
        ≡ false =
      ground (arith, h) in
    let no_long : (ltb (p + 32 * 0) stop && is_dirent_long s.mem (p + 32 * 0)) ≡ false =
      ground (arith, h) in
    let here : (p == p + 32 * 0) ≡ true = ground arith in
    rw (no_basic, no_long, here, search_loop) refl
search_loop-Stops fuel (suc r) disk stop p s h =
    let no_basic : (ltb (p + 32 * suc r) stop
          && is_dirent_basic disk.total_clusters s.mem (p + 32 * suc r))
        ≡ false =
      ground (arith, h) in
    let no_long : (ltb (p + 32 * suc r) stop && is_dirent_long s.mem (p + 32 * suc r)) ≡ false =
      ground (arith, h) in
    let further : (p == p + 32 * suc r) ≡ false = ground arith in
    rw (no_basic, no_long, further, search_loop) refl

search_loop-short :
    (fuel : ℕ) (disk : Disk) (stop curr n p : ℕ) (s : State)
    → p + 32 ≤ stop
    → is_dirent_basic disk.total_clusters s.mem p ≡ true
    → search_loop (suc fuel) disk stop curr n p s
      ≡ and_then (handle disk curr (n + 1) s) (search_loop fuel disk stop (p + 32) 0 (p + 32))
unfolding search_loop
search_loop-short fuel disk stop curr n p s le basic =
    let e : (ltb p stop && is_dirent_basic disk.total_clusters s.mem p) ≡ true = ground arith in
    rw (e, search_loop) refl

after-ge : (p : ℕ) (ks : List ℕ) → p ≤ after p ks
after-ge p [] = omega arith
after-ge p (k ∷ ks) = omega (arith, after-ge (p + 32 * k + 32) ks)

and_then_assoc :
    (run : Run) (k k' : Cmd) → and_then (and_then run k) k' ≡ and_then run (λ s. and_then (k s) k')
and_then_assoc (ok s) k k' = refl
and_then_assoc Run.abort k k' = refl
and_then_assoc Run.fault k k' = refl
and_then_assoc Run.out_of_fuel k k' = refl

search_loop-groups :
    (ks : List ℕ) (r fuel : ℕ) (disk : Disk) (m : Mem) (stop p : ℕ) (s : State)
    → s.mem ≡ m
    → LaidOut disk m p ks
    → Longs disk m (after p ks) r
    → after p ks + 32 * r ≤ stop
    → Stops disk m stop (after p ks + 32 * r)
    → search_loop (entries ks + r + suc fuel) disk stop p 0 p s
      ≡ and_then (handle_groups disk p ks s) (wait_for_short (after p ks) r)
unfolding handle_groups
search_loop-groups [] r fuel disk m stop p s e laid longs le stops =
    let a : 0 + r + suc fuel ≡ r + suc fuel = omega arith in
    let b : 0 + r ≡ r = omega arith in
    let run = search_loop-Longs r (suc fuel) disk stop p 0 p s (rw e longs) le in
    rw a (run ∙ rw b (search_loop-Stops fuel r disk stop p s (rw e stops)))
search_loop-groups (k ∷ ks) r fuel disk m stop p s e laid longs le stops =
    let a : k + 1 + entries ks + r + suc fuel ≡ k + suc (entries ks + r + suc fuel) = omega arith in
    let b : 0 + k ≡ k = omega arith in
    let room : p + 32 * k + 32 ≤ stop = omega (arith, after-ge (p + 32 * k + 32) ks) in
    let run =
      search_loop-Longs k (suc (entries ks + r + suc fuel)) disk stop p 0 p s (rw e laid.0)
        (omega arith) in
    rw a (
      run
      ∙ rw b (
          search_loop-short (entries ks + r + suc fuel) disk stop p k (p + 32 * k) s room
            (rw e laid.1)
          ∙ (handle-then disk p (k + 1) s _ _ (λ s' same.
                search_loop-groups ks r fuel disk m stop (p + 32 * k + 32) s' (same ∙ e) laid.2
                  longs le stops)
              ∙ sym (and_then_assoc (handle disk p (k + 1) s) _ _))))

after-entries : (p : ℕ) (ks : List ℕ) → after p ks ≡ p + 32 * entries ks
after-entries p [] = omega arith
after-entries p (k ∷ ks) = omega (arith, after-entries (p + 32 * k + 32) ks)

-- Where a cluster holds groups of long entries and a short one, then `r` long entries, then the end
-- or no entry, the loop of `search_cluster` handles each group in order, with the number of its
-- entries, and then lets the `r` long ones wait, if there are any.
pub search_from-groups :
    (disk : Disk) (start p : ℕ) (ks : List ℕ) (r : ℕ) (s : State)
    → start ≤ p
    → LaidOut disk s.mem p ks
    → Longs disk s.mem (after p ks) r
    → after p ks + 32 * r ≤ start + cluster_bytes disk
    → Stops disk s.mem (start + cluster_bytes disk) (after p ks + 32 * r)
    → search_from disk start p s
      ≡ and_then (handle_groups disk p ks s) (wait_for_short (after p ks) r)
unfolding search_from
search_from-groups disk start p ks r s le laid longs fits stops =
    let far = after-entries p ks in
    let fuel : cluster_bytes disk / 32 + 2
        ≡ entries ks + r + suc (cluster_bytes disk / 32 + 1 - (entries ks + r)) =
      omega arith in
    ap (λ (f : ℕ). search_loop f disk (start + cluster_bytes disk) p 0 p s) fuel
    ∙ search_loop-groups ks r (cluster_bytes disk / 32 + 1 - (entries ks + r)) disk s.mem
        (start + cluster_bytes disk) p s refl laid longs fits stops
