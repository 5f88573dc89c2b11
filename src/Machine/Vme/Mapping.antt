-- ===== src/Machine/Vme/Mapping.antt =====
-- `map` of abstract-machine/am/src/x86/qemu/vme.c changes the entry of one page.
use nju_os_workbench.Base.{
  ℕ, ◌%◌, ◌≤◌, ◌<◌, ◌≡◌, ◌≢◌, refl, sym, ◌∙◌, subst, true, false, ◌&&◌, Option, List, arith, ltb,
  leb, ◌==◌, length,
}
use nju_os_workbench.Machine.Vme.{
  Machine, ok, write, baseof, is_present, uvm_start, uvm_end, new_entry,
}
unfoldable use nju_os_workbench.Machine.Vme.{ptwalk, map_at, map_page}
use nju_os_workbench.Machine.Vme.Leaves.{Reaches-entry}
use nju_os_workbench.Machine.Vme.Spaces.{
  InUser, IsSpace, entry_of, page_of, ptwalk-Found, present-Found, Found, write-Found, levels,
}

in_area : (a b c : ℕ) → a ≤ b → b < c → leb a b && ltb b c ≡ true
in_area a b c low high = ground arith

map_page-run :
    (space va pa prot : ℕ) (m : Machine) (slot : ℕ) (m' m'' : Machine)
    → leb uvm_start va && ltb va uvm_end ≡ true
    → (va % 4096 == 0) ≡ true
    → (pa % 4096 == 0) ≡ true
    → ptwalk space va 6 m ≡ ok slot m'
    → map_at slot pa prot m' ≡ ok tt m''
    → ptwalk space va 6 m'' ≡ ok slot m''
    → map_page space va pa prot m ≡ ok tt m''
unfolding map_page
map_page-run space va pa prot m slot m' m'' inside at at' first done second =
    rw (inside, at, at', first, done, second) refl

map_at-maps :
    (slot pa prot : ℕ) (m : Machine)
    → prot ≢ 0
    → is_present (m.words slot) ≡ false
    → map_at slot pa prot m ≡ ok tt (write slot (new_entry pa prot) m)
unfolding map_at
map_at-maps slot pa prot m some_prot missing =
    let test : (prot == 0) ≡ false = ground arith in rw (test, missing, map_at) refl

map_at-unmaps :
    (slot pa : ℕ) (m : Machine)
    → is_present (m.words slot) ≡ true
    → map_at slot pa 0 m ≡ ok tt (write slot 0 m)
unfolding map_at
map_at-unmaps slot pa m present = rw (present, map_at) refl

module _ (space : ℕ) where
  -- the whole of `map`, where its last part writes `v`
  map_page-writes :
      (va pa prot v : ℕ) (own : ℕ → Option (List ℕ)) (m : Machine)
      → IsSpace space own m
      → Found space va own m
      → uvm_start ≤ va
      → va < uvm_end
      → va % 4096 ≡ 0
      → pa % 4096 ≡ 0
      → ((slot : ℕ) (m' : Machine)
          → m'.words slot ≡ entry_of space va m
          → map_at slot pa prot m' ≡ ok tt (write slot v m'))
      → (m' : Machine) × (own' : ℕ → Option (List ℕ)) × (map_page space va pa prot m ≡ ok tt m')
        × IsSpace space own' m'
        × (entry_of space va m' ≡ v)
        × ((addr : ℕ)
            → InUser addr
            → page_of addr ≢ page_of va
            → entry_of space addr m' ≡ entry_of space addr m)
  unfolding map_page
  map_page-writes va pa prot v own m is (slot, m', own', run, is', reaches, same) low high at at'
        writes =
      let entry =
        sym (Reaches-entry levels (baseof (m'.words space)) va slot m'.words reaches)
        ∙ same va (low, high) in
      let (is'', again, found, others) =
        write-Found space va v slot own' m' is' (low, high) reaches in
      let inside = in_area uvm_start va uvm_end low high in
      let a : (va % 4096 == 0) ≡ true = ground arith in
      let b : (pa % 4096 == 0) ≡ true = ground arith in
      (
        write slot v m',
        own',
        map_page-run space va pa prot m slot m' (write slot v m') inside a b run
            (writes slot m' entry) again,
        is'',
        found,
        λ addr inside' ne. others addr inside' ne ∙ same addr inside',
      )

  -- In an address space with three free pages, `map` of a page of the user area that is not mapped
  -- gives its addresses the entry of `pa`, with the bits for the user and, if `prot` asks for it, for
  -- writing; the entries of all other pages of that area stay, and the result is an address space again.
  pub map_page-maps :
      (va pa prot : ℕ) (own : ℕ → Option (List ℕ)) (m : Machine)
      → IsSpace space own m
      → 3 ≤ length m.pages
      → uvm_start ≤ va
      → va < uvm_end
      → va % 4096 ≡ 0
      → pa % 4096 ≡ 0
      → prot ≢ 0
      → is_present (entry_of space va m) ≡ false
      → (m' : Machine) × (own' : ℕ → Option (List ℕ)) × (map_page space va pa prot m ≡ ok tt m')
        × IsSpace space own' m'
        × (entry_of space va m' ≡ new_entry pa prot)
        × ((addr : ℕ)
            → InUser addr
            → page_of addr ≢ page_of va
            → entry_of space addr m' ≡ entry_of space addr m)
  map_page-maps va pa prot own m is enough low high at at' some_prot missing =
      map_page-writes va pa prot (new_entry pa prot) own m is
        (ptwalk-Found space va own m is (low, high) enough) low high at at'
        (λ slot m' e.
          map_at-maps slot pa prot m' some_prot (subst (λ v. is_present v ≡ false) (sym e) missing))

  -- With the protection MMAP_NONE, `map` of a page that is mapped leaves its addresses without an
  -- entry; the entries of all other pages of that area stay.
  pub map_page-unmaps :
      (va pa : ℕ) (own : ℕ → Option (List ℕ)) (m : Machine)
      → IsSpace space own m
      → uvm_start ≤ va
      → va < uvm_end
      → va % 4096 ≡ 0
      → pa % 4096 ≡ 0
      → is_present (entry_of space va m) ≡ true
      → (m' : Machine) × (own' : ℕ → Option (List ℕ)) × (map_page space va pa 0 m ≡ ok tt m')
        × IsSpace space own' m'
        × (entry_of space va m' ≡ 0)
        × ((addr : ℕ)
            → InUser addr
            → page_of addr ≢ page_of va
            → entry_of space addr m' ≡ entry_of space addr m)
  map_page-unmaps va pa own m is low high at at' present =
      map_page-writes va pa 0 0 own m is (present-Found space va own m is present) low high at at'
        (λ slot m' e. map_at-unmaps slot pa m' (subst (λ v. is_present v ≡ true) (sym e) present))
