-- ===== src/Fsrecov/Matching.antt =====
-- `full_scan` of M6-fsrecov/fsrecov.c ends: the matching of the entries that wait after the scan.
use nju_os_workbench.Fsrecov.Image.{Apart, Agrees, combine-Agrees, matched-some}
use nju_os_workbench.Base.{
  List, [], ◌∷◌, ◌==◌, ◌&&◌, not, if◌then◌else◌, ltb, ◌^◌, length, refl, ℕ, zero, suc, ◌+◌, ◌≡◌,
  ◌≢◌, inl, inr, true, arith, Bool-cases, get_or, set, ◌*◌,
}
use nju_os_workbench.Fsrecov.Scan.{scan_clusters, ok, EntryPart, State, handle, is_mapped}
use nju_os_workbench.Fsrecov.Match.{
  match_heads, handle_rest, match_entries, full_scan, block_size, tail_at, clear_tail, match_tails,
}
use nju_os_workbench.Fsrecov.Bounds.{WellFormed, total_clusters-small}
use nju_os_workbench.Fsrecov.Waiting.{
  Ends-mono, LongHeads, Waits, Ends, Ends-bind, IsPlace, IsEntry, EntryTails, handle-cases,
}
use nju_os_workbench.Fsrecov.Searching.{scan_clusters-Waits}
use nju_os_workbench.Base.Memory.{Mem}
use nju_os_workbench.Fsrecov.Entry.{is_dirent_long, entry_size}
use nju_os_workbench.Fsrecov.Disk.{Disk}

-- the state while entries are matched
pub record Matches (disk : Disk) (m : Mem) (s : State) : Type 0 where
  pub image : Agrees disk m s.mem
  pub tails_entries : EntryTails disk m s.tails

handle-Matches :
    (disk : Disk) (m : Mem) (entry len : ℕ) (s : State)
    → Matches disk m s
    → Ends (Matches disk m) (handle disk entry len s)
handle-Matches disk m entry len s h = elim (handle-cases disk entry len s) [
  | inl e ↦ rw e tt
  | inr (inl e) ↦ rw e h
  | inr (inr e) ↦ rw e (record { image = h.image; tails_entries = h.tails_entries })
]

tail-IsEntry :
    (disk : Disk) (m : Mem) (parts : List EntryPart) (j : ℕ)
    → EntryTails disk m parts
    → (get_or parts j (record { entry = 0; len = 0 })).entry ≢ 0
    → IsEntry disk m (get_or parts j (record { entry = 0; len = 0 })).entry
tail-IsEntry disk m [] j h ne = absurd (ne refl)
tail-IsEntry disk m (x ∷ xs) zero h ne = h.0 ne
tail-IsEntry disk m (x ∷ xs) (suc j) h ne = tail-IsEntry disk m xs j h.1 ne

EntryTails-clear :
    (disk : Disk) (m : Mem) (parts : List EntryPart) (j : ℕ) (part : EntryPart)
    → EntryTails disk m parts
    → part.entry ≡ 0
    → EntryTails disk m (set parts j part)
EntryTails-clear disk m [] j part h e = tt
EntryTails-clear disk m (x ∷ xs) zero part h e = ((λ ne. absurd (ne e)), h.1)
EntryTails-clear disk m (x ∷ xs) (suc j) part h e = (h.0, EntryTails-clear disk m xs j part h.1 e)

match_tails-Matches :
    (n : ℕ) (malloc : ℕ → ℕ → ℕ → ℕ) (disk : Disk) (m : Mem) (head : EntryPart) (i j : ℕ)
    (s : State)
    → Apart disk malloc
    → IsPlace disk head.entry
    → is_dirent_long m head.entry ≡ true
    → Matches disk m s
    → Ends (Matches disk m) (match_tails n malloc disk head i j s)
unfolding match_tails
match_tails-Matches zero malloc disk m head i j s apart place long h = h
match_tails-Matches (suc n) malloc disk m head i j s apart place long h =
    elim (Bool-cases ((tail_at s j).entry == 0)) [
      | inl cleared ↦
          rw (cleared, match_tails)
            (match_tails-Matches n malloc disk m head i (j + 1) s apart place long h)
      | inr waits ↦
          let (same, e) =
            matched-some disk m s.mem head.entry (tail_at s j).entry h.image place long
              (tail-IsEntry disk m s.tails j h.tails_entries (ground arith)) in
          elim (Bool-cases same) [
            | inl alike ↦
                elim (Bool-cases
                  (is_mapped disk (tail_at s j).entry ((tail_at s j).len * entry_size))) [
                    | inr outside ↦ rw (waits, e, alike, outside, match_tails) tt
                    | inl mapped ↦
                        rw (waits, e, alike, mapped, match_tails)
                          (Ends-bind (Matches disk m) _ _ _
                            (handle-Matches disk m (malloc i j (block_size head (tail_at s j)))
                              (head.len + (tail_at s j).len) _
                              (record {
                                image =
                                    combine-Agrees disk m s.mem _ head (tail_at s j)
                                      (apart i j (block_size head (tail_at s j))) h.image;
                                tails_entries = h.tails_entries;
                              }))
                            (λ s' h'.
                              match_tails-Matches n malloc disk m head i (j + 1) (clear_tail j s')
                                apart place long
                                (record {
                                  image = h'.image;
                                  tails_entries =
                                      EntryTails-clear disk m s'.tails j _ h'.tails_entries refl;
                                })))
                  ]
            | inr unlike ↦
                rw (waits, e, unlike, match_tails)
                  (match_tails-Matches n malloc disk m head i (j + 1) s apart place long h)
          ]
    ]

match_heads-Matches :
    (heads : List EntryPart) (malloc : ℕ → ℕ → ℕ → ℕ) (disk : Disk) (m : Mem) (i : ℕ) (s : State)
    → Apart disk malloc
    → LongHeads disk m heads
    → Matches disk m s
    → Ends (Matches disk m) (match_heads heads malloc disk i s)
unfolding match_heads
match_heads-Matches [] malloc disk m i s apart long h = h
match_heads-Matches (head ∷ heads) malloc disk m i s apart long h =
    Ends-bind (Matches disk m) _ (match_tails (length s.tails) malloc disk head i 0 s) _
      (match_tails-Matches (length s.tails) malloc disk m head i 0 s apart long.0.0 long.0.1 h)
      (λ s' h'. match_heads-Matches heads malloc disk m (i + 1) s' apart long.1 h')

handle_rest-Matches :
    (tails : List EntryPart) (disk : Disk) (m : Mem) (s : State)
    → Matches disk m s
    → Ends (Matches disk m) (handle_rest tails disk s)
unfolding handle_rest
handle_rest-Matches [] disk m s h = h
handle_rest-Matches (tail ∷ tails) disk m s h =
    Ends-bind (Matches disk m) _
      (if not (tail.entry == 0) && (tail.len == 1) then handle disk tail.entry tail.len s else ok s)
      _
      (elim (Bool-cases (not (tail.entry == 0) && (tail.len == 1))) [
        | inl alone ↦ rw alone (handle-Matches disk m tail.entry tail.len s h)
        | inr other ↦ rw other h
      ])
      (λ s' h'. handle_rest-Matches tails disk m s' h')

match_entries-Matches :
    (malloc : ℕ → ℕ → ℕ → ℕ) (disk : Disk) (m : Mem) (s : State)
    → Apart disk malloc
    → Waits disk m s
    → Ends (Matches disk m) (match_entries malloc disk s)
unfolding match_entries
match_entries-Matches malloc disk m s apart w =
    Ends-bind (Matches disk m) _ (match_heads s.heads malloc disk 0 s) _
      (match_heads-Matches s.heads malloc disk m 0 s apart w.heads_long
        (record { image = λ q lo hi. ground (arith, w.memory); tails_entries = w.tails_entries }))
      (λ s' h. handle_rest-Matches s'.tails disk m s' h)

-- In a well-formed image, where `malloc` returns blocks outside of the image, `full_scan` from no
-- waiting entries ends and meets no failed `assert`, or it is stopped by a fault: a write behind an
-- array, or a read outside of the image of a file's first bytes or of a tail that is copied. Where it
-- ends, the bytes of the image are what they were.
pub full_scan-Ends :
    (malloc : ℕ → ℕ → ℕ → ℕ) (disk : Disk) (s : State)
    → WellFormed disk
    → Apart disk malloc
    → s.heads ≡ []
    → s.tails ≡ []
    → Ends (λ s'. Agrees disk s.mem s'.mem) (full_scan malloc disk s)
unfolding full_scan
full_scan-Ends malloc disk s wf apart no_heads no_tails =
    let small = total_clusters-small disk wf in
    let all : ltb disk.total_clusters (2 ^ 31) ≡ true = ground arith in
    rw all (
      Ends-mono (Matches disk s.mem) _ _
        (Ends-bind (Waits disk s.mem) (Matches disk s.mem)
          (scan_clusters disk.total_clusters disk 2 s) _
          (scan_clusters-Waits disk.total_clusters disk s.mem 2 s wf (omega arith) (omega arith)
            (start_Waits disk s no_heads no_tails))
          (λ s' w. match_entries-Matches malloc disk s.mem s' apart w))
        (λ s' h. h.image))
  where
    start_Waits : (disk : Disk) (s : State) → s.heads ≡ [] → s.tails ≡ [] → Waits disk s.mem s
    start_Waits disk s no_heads no_tails = record {
      memory = refl;
      heads_long = rw no_heads tt;
      tails_entries = rw no_tails tt;
      heads_bound = rw no_heads (omega arith);
      tails_bound = rw no_tails (omega arith);
    }
