-- ===== src/Libgsmd/Entries/Written.antt =====
-- From an entry of the phone book to the command that writes it.
use system_test_suite.Base.{
  ℕ, zero, suc, ◌+◌, ◌%◌, ◌^◌, ◌≤◌, ◌<◌, ◌≡◌, refl, sym, ap, ◌∙◌, true, some, [], ◌∷◌, ◌++◌,
  append_assoc, Bool-cases, inl, inr, lt→ltb, ◌==◌, Bytes, codes, length, length-append,
  length-take, get_elem?_at, take, drop, drop_at, arith,
}
use system_test_suite.Base.Bits.{passes, passes_below}
use system_test_suite.Base.Int.{pos}
use system_test_suite.Base.Text.{
  c_string, is_text, is_text-append, decimal, decimal_before, length-decimal_before,
}
use system_test_suite.Usock.Message.{
  MsgHdr, World, Session, Action, perform, fill, submitted_printed, phonebook_write_cb,
}
use system_test_suite.Usock.Phonebooks.{write_entry, usock_rcv_phonebook}
use system_test_suite.Usock.Client.{handler, usock_rcv_pcmd}
use system_test_suite.Libgsmd.{message_octets, lgsm_gmh_fill, sent, send_checked}
use system_test_suite.Libgsmd.Layout.{send_checked-whole}
use system_test_suite.Libgsmd.Dialing.{Submits, submitted_printed-Submits, rcv_message}
use system_test_suite.Libgsmd.Entries.{LgsmPhonebook, ended, phonebook_octets, lgsm_pb_write_entry}

-- the arguments of the command
abbrev pub entry_text : ℕ → Bytes → ℕ → Bytes → Bytes
entry_text index numb type text =
    decimal index
    ++ codes ",\""
    ++ numb
    ++ codes "\","
    ++ decimal type
    ++ codes ",\""
    ++ text
    ++ codes "\""

is_text-decimal : (n : ℕ) → n < 256 → is_text (decimal n) ≡ true
unfolding is_text passes decimal_before
is_text-decimal n h = passes_below (λ k. is_text (decimal k)) 256 n refl h

entry_text_safe :
    (index : ℕ) (numb : Bytes) (type : ℕ) (text : Bytes)
    → index < 256
    → type < 256
    → (is_text numb ≡ true) × (length numb ≤ 44)
    → (is_text text ≡ true) × (length text ≤ 14)
    → (length (entry_text index numb type text) < 1024)
      × (is_text (entry_text index numb type text) ≡ true)
unfolding is_text
entry_text_safe index numb type text hi ht (pn, fn) (pt, ft) =
    let first = decimal index ++ codes ",\"" in
    let second = first ++ numb ++ codes "\"," in
    let third = second ++ decimal type ++ codes ",\"" in
    (
      omega (
        arith,
        length-decimal_before 10 index [],
        length-decimal_before 10 type [],
        length-append (decimal index) (codes ",\""),
        length-append first numb,
        length-append (first ++ numb) (codes "\","),
        length-append second (decimal type),
        length-append (second ++ decimal type) (codes ",\""),
        length-append third text,
        length-append (third ++ text) (codes "\""),
      ),
      is_text-append (third ++ text) (codes "\"")
          (is_text-append third text
            (is_text-append (second ++ decimal type) (codes ",\"")
              (is_text-append second (decimal type)
                (is_text-append (first ++ numb) (codes "\",")
                  (is_text-append first numb
                    (is_text-append (decimal index) (codes ",\"") (is_text-decimal index hi) refl)
                    pn)
                  refl)
                (is_text-decimal type ht))
              refl)
            pt)
          refl,
    )

-- an array that ends in a zero is read back
ended_back :
    (size : ℕ) (s junk rest : Bytes)
    → is_text s ≡ true
    → length s ≤ size
    → c_string (ended size (s ++ 0 ∷ junk) ++ rest) ≡ some s
unfolding c_string is_text
ended_back zero [] junk rest plain h = refl
ended_back (suc size) [] junk rest plain h = refl
ended_back zero (c ∷ s) junk rest plain h = absurd (omega arith)
ended_back (suc size) (c ∷ s) junk rest plain h = elim (Bool-cases (c == 0)) [
  | inl e ↦ absurd (cc (rw e at plain))
  | inr n ↦ rw (n, ended_back size s junk rest (rw n at plain) (omega arith)) refl
]

length-ended :
    (size : ℕ) (array : Bytes) → size ≤ length array → length (ended size array) ≡ size + 1
length-ended size array h =
    omega (arith, length-append (take size array) (0 ∷ []), length-take size array)

-- what the daemon does with the octets of an entry
write_entry_lem :
    (w : World) (gph : MsgHdr) (index type : ℕ) (array texts rest numb text : Bytes)
    → length array ≡ 45
    → c_string (array ++ (type ∷ (texts ++ rest))) ≡ some numb
    → c_string (texts ++ rest) ≡ some text
    → length (entry_text index numb type text) < 1024
    → write_entry w gph (index ∷ (array ++ (type ∷ (texts ++ rest))))
      ≡ submitted_printed
          (fill w 0
            (codes "AT+CPBW=")
            (9 + length (entry_text index numb type text))
            phonebook_write_cb
            gph.id)
          (codes "AT+CPBW=" ++ entry_text index numb type text)
unfolding write_entry
write_entry_lem w gph index type array texts rest numb text size first second short =
    let third : c_string (drop 46 (array ++ (type ∷ (texts ++ rest)))) ≡ some text =
      ap (λ m. c_string (drop 46 m)) (sym (append_assoc array (type ∷ []) (texts ++ rest)))
      ∙ ap c_string (
          drop_at (array ++ type ∷ []) (texts ++ rest) {i = 46}
            (omega (arith, size, length-append array (type ∷ []))))
      ∙ second in
    rw
      (
        first,
        get_elem?_at array (texts ++ rest) type {i = 45} (sym size),
        third,
        lt→ltb (length (entry_text index numb type text)) 1024 short,
      )
      refl

-- An entry with an index and a type of one octet, a number of at most 44 characters and a text of
-- at most 14, both in their arrays, given to `lgsm_pb_write_entry`, is sent in one message, whose
-- number has 16 bits. The daemon that reads
-- the message at the start of its array, with memory left, submits one command, which writes the
-- entry. `lgsm_pb_write_entry` returns 0 if `send` returns the 70 octets of the message.
pub lgsm_pb_write_entry-entry_text :
    (w : World) (s : Session) (next_msg_id index type : ℕ) (numb junk text waste rest : Bytes)
    → w.allocated 0 ≡ true
    → next_msg_id < 2 ^ 16
    → index < 256
    → type < 256
    → is_text numb ≡ true
    → length (numb ++ 0 ∷ junk) ≡ 45
    → is_text text ≡ true
    → length (text ++ 0 ∷ waste) ≡ 15
    → (octets : Bytes) × (lgsm_pb_write_entry true next_msg_id (pos 70) (record {
      index = pos index;
      numb = numb ++ 0 ∷ junk;
      type = type;
      text = text ++ 0 ∷ waste;
    })
        ≡ sent octets (pos 0))
      × (length octets ≡ 70)
      × (a : Action) × (usock_rcv_pcmd w s (octets ++ rest) (length octets)
          ≡ some (perform w.env a s))
      × Submits a
          (codes "AT+CPBW=" ++ entry_text index numb type text)
          next_msg_id
          (w.cb phonebook_write_cb)
unfolding lgsm_pb_write_entry send_checked handler usock_rcv_phonebook is_text
lgsm_pb_write_entry-entry_text w s next_msg_id index type numb junk text waste rest memory hid hi ht
      plain_numb size_numb plain_text size_text =
    let entry : LgsmPhonebook = record {
      index = pos index;
      numb = numb ++ 0 ∷ junk;
      type = type;
      text = text ++ 0 ∷ waste;
    } in
    let small_i : index % 256 ≡ index = omega arith in
    let small_t : type % 256 ≡ type = omega arith in
    let array = ended 44 (numb ++ 0 ∷ junk) in
    let texts = ended 14 (text ++ 0 ∷ waste) in
    let gmh : MsgHdr = record (lgsm_gmh_fill 5 4 62) { id = next_msg_id } in
    let payload = index ∷ (array ++ (type ∷ texts)) in
    let octets = message_octets gmh payload in
    let first : length array ≡ 45 = length-ended 44 (numb ++ 0 ∷ junk) (omega (arith, size_numb)) in
    let second : length texts ≡ 15 =
      length-ended 14 (text ++ 0 ∷ waste) (omega (arith, size_text)) in
    let fits_numb : length numb ≤ 44 = omega (arith, length-append numb (0 ∷ junk), size_numb) in
    let fits_text : length text ≤ 14 = omega (arith, length-append text (0 ∷ waste), size_text) in
    let count : length payload ≡ 62 =
      omega (arith, first, second, length-append array (type ∷ texts)) in
    let seventy : length octets ≡ 70 = omega (arith, count) in
    let safe =
      entry_text_safe index numb type text hi ht (plain_numb, fits_numb) (plain_text, fits_text) in
    let (a, submits, done) =
      submitted_printed-Submits w (codes "AT+CPBW=") (9 + length (entry_text index numb type text))
        phonebook_write_cb next_msg_id (codes "AT+CPBW=" ++ entry_text index numb type text) memory
        (omega arith) safe.1 in
    (
      octets,
      send_checked-whole next_msg_id 5 4 62 (phonebook_octets entry) payload
          (rw (small_i, small_t) refl) count,
      seventy,
      a,
      rcv_message w s gmh payload rest (length octets) hid (omega arith)
          ∙ rw
              (
                seventy,
                append_assoc array (type ∷ texts) rest,
                write_entry_lem w gmh index type array texts rest numb text first
                    (ended_back 44 numb junk (type ∷ (texts ++ rest)) plain_numb fits_numb)
                    (ended_back 14 text waste rest plain_text fits_text) safe.0,
                submits,
              )
              refl,
      done,
    )
