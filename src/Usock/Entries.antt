-- ===== src/Usock/Entries.antt =====
-- The entries of the phone book, from the modem's lines to the client's list.
use system_test_suite.Base.{
  ℕ, ◌+◌, ◌-◌, ◌*◌, ◌<◌, ◌≡◌, refl, sym, ap, ◌∙◌, Bool, true, false, Bool-cases, inl, inr, none,
  some, List, [], ◌∷◌, ◌++◌, append_assoc, append-nil, map, All, lt→ltb, ◌==◌, ==_iff,
  if◌then◌else◌, Bytes, codes, length, Option, ◌>>=◌,
}
use system_test_suite.Base.Bits.{passes, passes_below, agree_below, agree_below_sound}
use system_test_suite.Base.Text.{decimal, decimal_before}
use system_test_suite.Atcmd.Mlparse.Texts.{is_digit, digits_value}
use system_test_suite.Events.{Ucmd}
use system_test_suite.Usock.Message.{World, Phonebook, Session, perform, collects_readrg}
use system_test_suite.Usock.Replies.{
  atoi_u8, answer, after_first, after_last, up_to, entry_of, strtok, entries_of, int_octets,
  phonebook_readrg_cb,
}

-- the byte is not in the text
unfoldable pub lacks : ℕ → Bytes → Bool
lacks c [] = true
lacks c (d ∷ s) = let rest = lacks c s in if c == d then false else rest

lacks-cons :
    (c d : ℕ) (s : Bytes) → lacks c (d ∷ s) ≡ true → ((c == d) ≡ false) × (lacks c s ≡ true)
unfolding lacks
lacks-cons c d s h = elim (Bool-cases (c == d)) [
  | inl e ↦ absurd (cc (rw e at h))
  | inr n ↦ (n, rw n at h)
]

after_first_skip :
    (c : ℕ) (a s : Bytes) → lacks c a ≡ true → after_first c (a ++ s) ≡ after_first c s
unfolding after_first
after_first_skip c [] s h = refl
after_first_skip c (d ∷ a) s h = let (n, k) = lacks-cons c d a h in rw n (after_first_skip c a s k)

up_to_end : (c : ℕ) (a s : Bytes) → lacks c a ≡ true → up_to c (a ++ c ∷ s) ≡ some (a, s)
unfolding up_to
up_to_end c [] s h = rw ((==_iff c c).1 refl) refl
up_to_end c (d ∷ a) s h = let (n, k) = lacks-cons c d a h in rw (n, up_to_end c a s k) refl

after_last_before :
    (c : ℕ) (a s r : Bytes) → after_last c s ≡ some r → after_last c (a ++ s) ≡ some r
unfolding after_last
after_last_before c [] s r e = e
after_last_before c (d ∷ a) s r e = rw (after_last_before c a s r e) refl

after_last-none : (c : ℕ) (s : Bytes) → lacks c s ≡ true → after_last c s ≡ none
unfolding after_last
after_last-none c [] h = refl
after_last-none c (d ∷ s) h = let (n, k) = lacks-cons c d s h in rw (after_last-none c s k, n) refl

after_last_here : (c : ℕ) (s : Bytes) → lacks c s ≡ true → after_last c (c ∷ s) ≡ some s
unfolding after_last
after_last_here c s h = rw (after_last-none c s h, (==_iff c c).1 refl) refl

digits_value_stop :
    (acc : ℕ) (ds rest : Bytes) → digits_value acc (ds ++ b',' ∷ rest) ≡ digits_value acc ds
unfolding digits_value
digits_value_stop acc [] rest = refl
digits_value_stop acc (d ∷ ds) rest =
    ap (λ v. if is_digit d then v else acc) (digits_value_stop (acc * 10 + (d - b'0')) ds rest)

atoi_u8_stop : (ds rest : Bytes) → atoi_u8 (ds ++ b',' ∷ rest) ≡ atoi_u8 ds
unfolding atoi_u8 digits_value
atoi_u8_stop [] rest = refl
atoi_u8_stop (d ∷ ds) rest =
    rw
      (
        atoi_u8_stop ds rest,
        digits_value_stop 0 ds rest,
        digits_value_stop (0 + (d - b'0')) ds rest,
      )
      refl

-- a number of an octet is read as it was printed, and its digits are no separators
atoi_u8-decimal : (n : ℕ) → n < 256 → atoi_u8 (decimal n) ≡ n
unfolding atoi_u8 digits_value decimal_before agree_below passes
atoi_u8-decimal n h = agree_below_sound 256 (λ k. atoi_u8 (decimal k)) (λ k. k) n refl h

lacks-decimal :
    (c n : ℕ)
    → passes (λ k. lacks c (decimal k)) 0 256 ≡ true
    → n < 256
    → lacks c (decimal n) ≡ true
lacks-decimal c n all h = passes_below (λ k. lacks c (decimal k)) 256 n all h

lacks-append : (c : ℕ) (a b : Bytes) → lacks c a ≡ true → lacks c b ≡ true → lacks c (a ++ b) ≡ true
unfolding lacks
lacks-append c [] b h k = k
lacks-append c (d ∷ a) b h k = let (n, l) = lacks-cons c d a h in rw n (lacks-append c a b l k)

-- An entry that the memory of the client's list can hold: two octets, and two texts without a quote or
-- a newline, the second without a comma.
pub record IsEntry (pb : Phonebook) : Type 0 where
  pub index : pb.index < 256
  pub type : pb.type < 256
  pub numb_fits : length pb.numb < 45
  pub text_fits : length pb.text < 15
  pub numb_quote : lacks b'"' pb.numb ≡ true
  pub text_quote : lacks b'"' pb.text ≡ true
  pub text_comma : lacks b',' pb.text ≡ true
  pub numb_line : lacks b'\n' pb.numb ≡ true
  pub text_line : lacks b'\n' pb.text ≡ true

-- what a modem answers for an entry
abbrev pub entry_line : Phonebook → Bytes
entry_line pb =
    codes "+CPBR: "
    ++ (decimal pb.index
        ++ (codes ",\""
            ++ (pb.numb
                ++ (codes "\"," ++ (decimal pb.type ++ (codes ",\"" ++ (pb.text ++ codes "\"")))))))

digits_lack_quote : (n : ℕ) → n < 256 → lacks b'"' (decimal n) ≡ true
unfolding lacks passes decimal_before
digits_lack_quote n h = lacks-decimal b'"' n refl h

last_comma :
    (pb : Phonebook)
    → IsEntry pb
    → after_last b',' (entry_line pb) ≡ some (b'"' ∷ (pb.text ++ codes "\""))
unfolding lacks
last_comma pb v =
    let inside =
      after_last_here b',' (b'"' ∷ (pb.text ++ codes "\""))
        (lacks-append b',' pb.text (codes "\"") v.text_comma refl) in
    after_last_before b',' (codes "+CPBR: ") _ _ (
      after_last_before b',' (decimal pb.index) _ _ (
        after_last_before b',' (codes ",\"") _ _ (
          after_last_before b',' pb.numb _ _ (
            after_last_before b',' (codes "\",") _ _
              (after_last_before b',' (decimal pb.type) _ _ inside)))))

entry_of-entry_line : (pb : Phonebook) → IsEntry pb → entry_of (entry_line pb) ≡ some pb
unfolding entry_of after_first
entry_of-entry_line pb v =
    let tail = pb.text ++ codes "\"" in
    let typed = decimal pb.type ++ (codes ",\"" ++ tail) in
    let opened = pb.numb ++ (codes "\"," ++ typed) in
    rw
      (
        after_first_skip b'"' (decimal pb.index) (codes ",\"" ++ opened)
            (digits_lack_quote pb.index v.index),
        up_to_end b'"' pb.numb (b',' ∷ typed) v.numb_quote,
        lt→ltb (length pb.numb) 45 v.numb_fits,
        last_comma pb v,
        up_to_end b'"' pb.text [] v.text_quote,
        lt→ltb (length pb.text) 15 v.text_fits,
        atoi_u8_stop (decimal pb.index) (b'"' ∷ opened),
        atoi_u8_stop (decimal pb.type) (b'"' ∷ tail),
        atoi_u8-decimal pb.index v.index,
        atoi_u8-decimal pb.type v.type,
      )
      refl

digits_one_line : (n : ℕ) → n < 256 → lacks b'\n' (decimal n) ≡ true
unfolding lacks passes decimal_before
digits_one_line n h = lacks-decimal b'\n' n refl h

one_line : (pb : Phonebook) → IsEntry pb → lacks b'\n' (entry_line pb) ≡ true
unfolding lacks
one_line pb v =
    let tail = pb.text ++ codes "\"" in
    let typed = decimal pb.type ++ (codes ",\"" ++ tail) in
    lacks-append b'\n' (decimal pb.index) (codes ",\"" ++ (pb.numb ++ (codes "\"," ++ typed)))
      (digits_one_line pb.index v.index)
      (lacks-append b'\n' pb.numb (codes "\"," ++ typed) v.numb_line (
        lacks-append b'\n' (decimal pb.type) (codes ",\"" ++ tail) (digits_one_line pb.type v.type)
          (lacks-append b'\n' pb.text (codes "\"") v.text_line refl)))

strtok_skip :
    (sep : ℕ) (part a s : Bytes)
    → lacks sep a ≡ true
    → strtok sep part (a ++ s) ≡ strtok sep (part ++ a) s
unfolding strtok
strtok_skip sep part [] s h = ap (λ p. strtok sep p s) (sym (append-nil part))
strtok_skip sep part (d ∷ a) s h =
    let (n, k) = lacks-cons sep d a h in
    rw n (strtok_skip sep (part ++ d ∷ []) a s k)
    ∙ ap (λ p. strtok sep p s) (append_assoc part (d ∷ []) a)

strtok-line : (pb : Phonebook) → IsEntry pb → strtok b'\n' [] (entry_line pb) ≡ entry_line pb ∷ []
unfolding strtok
strtok-line pb v =
    ap (strtok b'\n' []) (sym (append-nil (entry_line pb)))
    ∙ strtok_skip b'\n' [] (entry_line pb) [] (one_line pb v)

-- One line, which is one entry.
phonebook_readrg_cb-entry_line :
    (w : World) (pb : Phonebook)
    → w.allocated 0 ≡ true
    → IsEntry pb
    → phonebook_readrg_cb w (entry_line pb)
      ≡ some (collects_readrg (pb ∷ []) (answer 5 3 0 (int_octets 1)))
unfolding phonebook_readrg_cb entries_of
phonebook_readrg_cb-entry_line w pb memory v =
    rw (memory, strtok-line pb v, entry_of-entry_line pb v) refl

-- The callback is called once for every line of a response, as `ml_parse` does for lines of +CPBR, with
-- no older text behind the line in the buffer.
unfoldable pub readrg_lines : World → Session → List Bytes → Option Session
unfolding phonebook_readrg_cb perform
readrg_lines w s [] = some s
readrg_lines w s (resp ∷ resps) =
    phonebook_readrg_cb w resp >>= λ a. readrg_lines w (perform w.env a s).0 resps

-- the answer to the client, with the number 1
abbrev pub one_entry : Ucmd
one_entry = record { msg_type = 5; msg_subtype = 3; id = 0; len = 4; buf = 1 ∷ 0 ∷ 0 ∷ 0 ∷ [] }

abbrev told_of : Session → Phonebook → Session
told_of s pb = record s {
  pb_readrg_list = s.pb_readrg_list ++ pb ∷ [];
  user = record s.user { finished = s.user.finished ++ one_entry ∷ []; wants_write = true };
}

-- From the modem's lines to the list of the client: when the callback of a request for a range of the
-- phone book is called with one line after the other, each of them the line of an entry, the entries
-- are added to the client's list in their order, and nothing else; the queues stay as they are; and
-- the client is told for each of the lines, in a message of its own, that the number is 1. There is
-- memory for the answers, and each entry is one that the list can hold, without quotes or newlines
-- in its number and its text and without a comma in its text.
pub readrg_lines-entries :
    (w : World) (s : Session) (pbs : List Phonebook)
    → w.allocated 0 ≡ true
    → All IsEntry pbs
    → (s' : Session) × (readrg_lines w s (map entry_line pbs) ≡ some s')
      × (s'.pb_readrg_list ≡ s.pb_readrg_list ++ pbs)
      × (s'.user.finished ≡ s.user.finished ++ map (λ pb. one_entry) pbs)
      × (s'.gsmd ≡ s.gsmd)
unfolding readrg_lines perform
readrg_lines-entries w s [] memory vs =
    (s, refl, sym (append-nil s.pb_readrg_list), sym (append-nil s.user.finished), refl)
readrg_lines-entries w s (pb ∷ pbs) memory (v, vs) =
    let (s', e, list, finished, gsmd) = readrg_lines-entries w (told_of s pb) pbs memory vs in
    (
      s',
      rw (phonebook_readrg_cb-entry_line w pb memory v) e,
      list ∙ append_assoc s.pb_readrg_list (pb ∷ []) pbs,
      finished ∙ append_assoc s.user.finished (one_entry ∷ []) (map (λ pb. one_entry) pbs),
      gsmd,
    )
