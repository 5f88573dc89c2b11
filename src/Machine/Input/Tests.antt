-- ===== src/Machine/Input/Tests.antt =====
-- A controller that holds the bytes of the keys that were pressed: left shift down, A down and A up.
use nju_os_workbench.Base.{ℕ, ◌%◌, ◌≡◌, refl, List, [], ◌∷◌, ◌==◌, if◌then◌else◌, arith}
use nju_os_workbench.Machine.Ports.{Ports}
use nju_os_workbench.Machine.Input.Keys.{IsController, pending, poll, events, poll-events}

abbrev first_byte : List ℕ → ℕ
first_byte [] = 0
first_byte (byte ∷ rest) = byte

abbrev others : List ℕ → List ℕ
others [] = []
others (byte ∷ rest) = rest

abbrev queued : Ports
queued = record {
  State = List ℕ;
  inb = λ s port. if port == 0x64 then (pending s, s) else (first_byte s, others s);
  outb = λ s port v. s;
  inl = λ s port. (0, s);
  outl = λ s port v. s;
}

pending_bit : (s : List ℕ) → pending s % 2 ≡ pending s
pending_bit [] = refl
pending_bit (byte ∷ rest) = refl

queued-IsController : IsController queued
queued-IsController = record {
  queue = λ s. s;
  status = λ s. (refl, pending_bit s);
  next = λ s byte rest e. rw e (refl, refl);
}

abbrev bytes : List ℕ
bytes = 0x2a ∷ 0x1e ∷ 0x9e ∷ []

poll-events_example : poll 4 queued bytes ≡ events 4 bytes
unfolding queued-IsController
poll-events_example =
    poll-events queued queued-IsController 4 bytes bytes refl
      ((omega arith), refl, ((omega arith), refl, ((omega arith), refl, tt)))
