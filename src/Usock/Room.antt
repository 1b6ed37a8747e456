-- ===== src/Usock/Room.antt =====
-- The texts that usock.c prints fit where it prints them.
use mathlib.Core.Option.{some_inj}
use system_test_suite.Base.{
  ℕ, zero, suc, ◌+◌, ◌*◌, ◌^◌, ◌≤◌, ◌<◌, ◌≡◌, refl, ◌∙◌, Bool, true, false, Bool-cases, inl, inr,
  Option, some, [], ◌∷◌, ◌++◌, Bytes, codes, length, not, set, get_elem?, get_elem?_total,
  get_elem?-drop, get_elem?-set, drop, length-append, arith, ltb, lt→ltb, ◌==◌, if◌then◌else◌,
  ◌>>=◌,
}
use system_test_suite.Base.Int.{ℤ, pos, negsuc}
use system_test_suite.Atcmd.Mlparse.Texts.{to_int32}
use system_test_suite.Base.Text.{c_string, u32_at, length-decimal_before, decimal_ℤ}
use system_test_suite.Atcmd.Queue.{Callback, Atcmd, atcmd_fill, new_atcmd}
use system_test_suite.Usock.Network.{
  usock_rcv_network, network_register, network_lists, network_pref_del, network_pref_add, buffered,
  prepared, buffer_size, precise,
}
use system_test_suite.Usock.Message.{
  MsgHdr, World, Action, print_to, submitted_printed, fill, CmdCb, usock_cmd_cb,
}
use system_test_suite.Usock.Calls.{dialled, voicecall_dial, voicecall_dtmf, usock_rcv_voicecall}

-- an outcome without a memory fault
pub data IsSome {A : Type 0} : Option A → Type 0 where
  is_some : {a : A} → IsSome (some a)

safe_if :
    {A : Type 0} (b : Bool) {x y : Option A} → IsSome x → IsSome y → IsSome (if b then x else y)
safe_if true s t = s
safe_if false s t = t

-- A zero within the memory ends the string there at the latest.
c_string_total :
    (memory : Bytes) (i : ℕ)
    → get_elem? memory i ≡ some 0
    → (s : Bytes) × (c_string memory ≡ some s) × (length s ≤ i)
unfolding c_string
c_string_total [] i h = absurd cc
c_string_total (c ∷ memory) zero h = ([], rw (some_inj.0 h) refl, omega arith)
c_string_total (c ∷ memory) (suc i) h =
    let (s, e, l) = c_string_total memory i h in
    elim (Bool-cases (c == 0)) [
      | inl z ↦ ([], rw z refl, omega arith)
      | inr n ↦ (c ∷ s, rw (n, e) refl, omega (arith, l))
    ]

print_to_safe : (cmd : Atcmd) (text : Bytes) → length text < cmd.buflen → IsSome (print_to cmd text)
unfolding print_to
print_to_safe cmd text h = rw (lt→ltb (length text) cmd.buflen h) is_some

safe_bind :
    {A B : Type 0} {o : Option A} {f : A → Option B}
    → IsSome o
    → ((a : A) → IsSome (f a))
    → IsSome (o >>= f)
safe_bind is_some next = next _

-- The memory of a filled command is at least what was asked for.
pub new_atcmd-buflen :
    (name : Bytes) (rlen : ℕ) (cb : Callback) (id : ℕ) → rlen ≤ (new_atcmd name rlen cb id).buflen
unfolding new_atcmd
new_atcmd-buflen name rlen cb id = ground arith

filled_safe :
    (cmd : Atcmd) (text : Bytes)
    → length text < cmd.buflen
    → IsSome (submitted_printed (some cmd) text)
filled_safe cmd text h = safe_bind (print_to_safe cmd text h) (λ full. is_some)

printed_safe :
    (w : World) (n : ℕ) (name : Bytes) (rlen : ℕ) (f : CmdCb) (id : ℕ) (text : Bytes)
    → length text < rlen
    → IsSome (submitted_printed (fill w n name rlen f id) text)
unfolding atcmd_fill
printed_safe w n name rlen f id text h = elim (Bool-cases (w.allocated n)) [
  | inl memory ↦ rw memory (
      filled_safe (new_atcmd name rlen (w.cb f) id) text
        (omega (arith, new_atcmd-buflen name rlen (w.cb f) id)))
  | inr full ↦ rw full is_some
]

dial_safe : (w : World) (gph : MsgHdr) (msg : Bytes) → 33 < length msg → IsSome (dialled w gph msg)
dial_safe w gph msg h =
    let ended = get_elem?-drop (set msg 33 0) 1 32 ∙ get_elem?-set msg 33 0 h in
    let (number, e, l) = c_string_total (drop 1 (set msg 33 0)) 32 ended in
    rw e (
      printed_safe w 0 (codes "ATD") (5 + length number) usock_cmd_cb gph.id
        (codes "ATD" ++ number ++ codes ";") (omega (arith, length-append number (codes ";"))))

dtmf_safe :
    (w : World) (gph : MsgHdr) (msg : Bytes) (len : ℕ)
    → 1 < length msg
    → IsSome (voicecall_dtmf w gph msg len)
unfolding voicecall_dtmf
dtmf_safe w gph msg len h =
    let (digits, e) = get_elem?_total msg 0 (omega arith) in
    let (digit, d) = get_elem?_total msg 1 h in
    rw (e, d)
      (safe_if (ltb len 9) is_some (
        safe_if (ltb len (9 + digits)) is_some (
          safe_if (not (digits == 1)) is_some (
            printed_safe w 0 (codes "AT+VTS=") 10 usock_cmd_cb gph.id
              (codes "AT+VTS=" ++ digit ∷ codes ";") (omega arith)))))

-- A request about a voice call, in a buffer with at least 34 octets behind the header, is handled
-- without a memory fault, whatever stands in it: the number, which the handler ends itself, and
-- the digit fit the commands that they are printed into.
pub usock_rcv_voicecall-IsSome :
    (w : World) (gph : MsgHdr) (msg : Bytes) (len : ℕ)
    → 33 < length msg
    → IsSome (usock_rcv_voicecall w gph msg len)
unfolding usock_rcv_voicecall voicecall_dial
usock_rcv_voicecall-IsSome w gph msg len h =
    let dial = dial_safe w gph msg h in
    let dtmf = dtmf_safe w gph msg len (omega arith) in search (safe_if, is_some) depth 10

-- Memory of `n` bytes is enough for a text of that precision.
precise_total :
    (n : ℕ) (memory : Bytes)
    → n ≤ length memory
    → (s : Bytes) × (precise n memory ≡ some s) × (length s ≤ n)
unfolding precise
precise_total zero memory h = ([], refl, omega arith)
precise_total (suc n) [] h = absurd (omega arith)
precise_total (suc n) (c ∷ memory) h =
    let (s, e, l) = precise_total n memory (omega arith) in
    elim (Bool-cases (c == 0)) [
      | inl z ↦ ([], rw z refl, omega arith)
      | inr m ↦ (c ∷ s, rw (m, e) refl, omega (arith, l))
    ]

decimal_ℤ-length : (n : ℤ) → length (decimal_ℤ n) ≤ 11
decimal_ℤ-length (pos n) = omega (arith, length-decimal_before 10 n [])
decimal_ℤ-length (negsuc n) = omega (arith, length-decimal_before 10 (suc n) [])

buffered_safe : (w : World) (text : Bytes) → length text < buffer_size → IsSome (buffered w text)
buffered_safe w text h = rw (lt→ltb (length text) buffer_size h) is_some

u32_at_total : (msg : Bytes) → 3 < length msg → (n : ℕ) × (u32_at msg 0 ≡ some n)
u32_at_total msg h =
    let (a, p) = get_elem?_total msg 0 (omega arith) in
    let (b, q) = get_elem?_total msg 1 (omega arith) in
    let (c, r) = get_elem?_total msg 2 (omega arith) in
    let (d, s) = get_elem?_total msg 3 (omega arith) in
    (a + 256 * b + 2 ^ 16 * (c + 256 * d), rw (p, q, r, s) refl)

register_safe : (w : World) (msg : Bytes) → 6 ≤ length msg → IsSome (network_register w msg)
unfolding network_register
register_safe w msg h =
    let (first, e) = get_elem?_total msg 0 (omega arith) in
    let (oper, read, short) = precise_total 6 msg h in
    let text = codes "AT+COPS=1,2,\"" ++ oper ++ codes "\"" in
    elim (Bool-cases (first == 0)) [
      | inl zero_first ↦ rw (e, zero_first) (buffered_safe w (codes "AT+COPS=0") (omega arith))
      | inr one ↦
          rw (e, one, read)
            (buffered_safe w text (omega (arith, short, length-append oper (codes "\""))))
    ]

pref_del_safe : (w : World) (msg : Bytes) → 3 < length msg → IsSome (network_pref_del w msg)
unfolding network_pref_del
pref_del_safe w msg h =
    let (index, e) = u32_at_total msg h in
    rw e (
      buffered_safe w (codes "AT+CPOL=" ++ decimal_ℤ (to_int32 index))
        (omega (arith, decimal_ℤ-length (to_int32 index))))

pref_add_safe : (w : World) (msg : Bytes) → 6 ≤ length msg → IsSome (network_pref_add w msg)
unfolding network_pref_add
pref_add_safe w msg h =
    let (oper, read, short) = precise_total 6 msg h in
    rw read (
      buffered_safe w (codes "AT+CPOL=,2,\"" ++ oper ++ codes "\"")
        (omega (arith, short, length-append oper (codes "\""))))

prepared_safe :
    (w : World) (text : Bytes) (rlen : ℕ) (f : CmdCb) (id : ℕ) (a : Action)
    → w.allocated 0 ≡ true
    → IsSome (prepared (fill w 0 text rlen f id) a)
unfolding atcmd_fill
prepared_safe w text rlen f id a e = rw e is_some

-- A request about the network, in a buffer with at least 6 octets behind the header, is handled
-- without a memory fault if there is memory for a command: every text, with the operator or the
-- number that the client sent, fits the 21 bytes of the buffer that it is printed into.
pub usock_rcv_network-IsSome :
    (w : World) (gph : MsgHdr) (msg : Bytes)
    → w.allocated 0 ≡ true
    → 6 ≤ length msg
    → IsSome (usock_rcv_network w gph msg)
unfolding usock_rcv_network network_lists
usock_rcv_network-IsSome w gph msg e h =
    let register = register_safe w msg h in
    let del = pref_del_safe w msg (omega arith) in
    let add = pref_add_safe w msg h in
    search (safe_if, is_some, prepared_safe w, e) depth 16 fits 4000
