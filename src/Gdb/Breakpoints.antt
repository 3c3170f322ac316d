-- ===== src/Gdb/Breakpoints.antt =====
-- Breakpoints, from the commands that set and remove them to the stop of the program.
use open_socemu.Base.{
  ℕ, ◌^◌, ◌<◌, ◌≡◌, refl, ap, ◌∙◌, Bool, true, false, ◌||◌, List, [], ◌∷◌, ◌==◌, if◌then◌else◌,
  Option, ok, arith, Bool-cases, inl, inr,
}
use open_socemu.Gdb.{Server, GdbCb, Arrival, put_packet}
use open_socemu.Gdb.Commands.{dispatch, handle_packet, breakpoint, set_insert, set_erase, reply_ok}
use open_socemu.Gdb.Digits.{AreNibbles, numeral, value_after, strto-numeral, field-numeral}
use open_socemu.Gdb.Session.{handlesig, must_stop, stop_or_run, before_exec_insn}

-- A command about a breakpoint in code: its letter, its type, 0 or 1, and the digits of its address.
unfoldable pub breakpoint_command : ℕ → ℕ → List ℕ → List ℕ → List ℕ
breakpoint_command letter type address rest =
    letter ∷ numeral (type ∷ []) (b',' ∷ numeral address (b',' ∷ rest))

put_packet_sets :
    {Cpu : Type 0} (buf : List ℕ) (s : Server Cpu)
    → ((put_packet buf s).brkpts ≡ s.brkpts)
      × ((put_packet buf s).wtcpts ≡ s.wtcpts)
      × ((put_packet buf s).singlestep ≡ s.singlestep)
      × ((put_packet buf s).connected ≡ s.connected)
unfolding put_packet
put_packet_sets buf s = elim (Bool-cases s.connected) [
  | inl e ↦ rw e (refl, refl, refl, refl)
  | inr e ↦ rw e (refl, refl, refl, refl)
]

erased : (b c : Bool) → (if b then false else if b then true else c) ≡ (if b then false else c)
erased true c = refl
erased false c = refl

-- A connected server stops the program at a breakpoint.
before_exec_insn-brkpts :
    {Cpu : Type 0} (cb : GdbCb Cpu) (waiting : Option (List Arrival)) (pc : ℕ) (t : Server Cpu)
    → t.connected ≡ true
    → t.brkpts pc ≡ true
    → before_exec_insn cb waiting pc t ≡ handlesig cb true t
unfolding before_exec_insn stop_or_run must_stop
before_exec_insn-brkpts cb waiting pc t here set =
    let stops : (t.singlestep || t.brkpts pc) ≡ true = ground arith in rw here (rw stops refl)

module _ {Cpu : Type 0} (cb : GdbCb Cpu) (type a : ℕ) (address rest : List ℕ) (code : type < 2)
    (digits : AreNibbles (a ∷ address)) (word : value_after 0 (a ∷ address) < 2 ^ 32) where
  breakpoint-code :
      (change : ℕ → (ℕ → Bool) → (ℕ → Bool)) (s : Server Cpu)
      → breakpoint cb change (numeral (type ∷ []) (b',' ∷ numeral (a ∷ address) (b',' ∷ rest))) s
        ≡ put_packet reply_ok (record s { brkpts = change (value_after 0 (a ∷ address)) s.brkpts })
  unfolding breakpoint
  breakpoint-code change s =
      let nibble : AreNibbles (type ∷ []) = (omega arith, tt) in
      let value : value_after 0 (type ∷ []) ≡ type = unfold value_after in omega arith in
      let either : (type == 0 || type == 1) ≡ true = ground arith in
      rw
        (strto-numeral (2 ^ 32) type [] (b',' ∷ numeral (a ∷ address) (b',' ∷ rest)) nibble refl
          refl (rw value (omega arith)))
        (rw value
          (rw (field-numeral b',' a address (b',' ∷ rest) digits refl refl word) (rw either refl)))

  -- A command to set a breakpoint in code is taken, and the server stops the program before the
  -- instruction at that address, and at the addresses where it stopped before; a command to remove it,
  -- after that, is taken, and leaves the other addresses as they were at first. The type is 0 or 1, and
  -- the address has any number of leading zeros.
  pub breakpoint_set_and_removed :
      (pc : ℕ) (waiting : Option (List Arrival)) (s : Server Cpu)
      → s.connected ≡ true
      → (t : Server Cpu) × (u : Server Cpu) × (handle_packet cb
            (breakpoint_command b'Z' type (a ∷ address) rest)
            s
          ≡ ok t)
        × (handle_packet cb (breakpoint_command b'z' type (a ∷ address) rest) t ≡ ok u)
        × (before_exec_insn cb waiting (value_after 0 (a ∷ address)) t ≡ handlesig cb true t)
        × (t.brkpts pc ≡ (pc == value_after 0 (a ∷ address) || s.brkpts pc))
        × (u.brkpts pc ≡ (if pc == value_after 0 (a ∷ address) then false else s.brkpts pc))
  unfolding handle_packet dispatch breakpoint_command
  breakpoint_set_and_removed pc waiting s here =
      let addr = value_after 0 (a ∷ address) in
      let s' : Server Cpu = record s { brkpts = set_insert addr s.brkpts } in
      let t = put_packet reply_ok s' in
      let t' : Server Cpu = record t { brkpts = set_erase addr t.brkpts } in
      let (t_set, t_watch, t_step, t_here) = put_packet_sets reply_ok s' in
      let (u_set, u_watch, u_step, u_here) = put_packet_sets reply_ok t' in
      (
        t,
        put_packet reply_ok t',
        rw (breakpoint-code set_insert s) refl,
        rw (breakpoint-code set_erase t) refl,
        before_exec_insn-brkpts cb waiting addr t (t_here ∙ here)
            (ap (λ f. f addr) t_set ∙ ground arith),
        ap (λ f. f pc) t_set ∙ ground arith,
        ap (λ f. f pc) u_set ∙ rw t_set (erased (pc == addr) (s.brkpts pc)),
      )
