-- ===== src/Libgsmd/Messages/Addresses.antt =====
-- The octets of a request to send, as the daemon reads them.
use native.Mathlib.Nat.{suc-add}
use system_test_suite.Base.{
  ℕ, suc, ◌%◌, ◌≤◌, ◌≡◌, refl, sym, ap, ◌∙◌, Bool, true, false, not, Option, some, [], ◌∷◌, ◌++◌,
  append_assoc, Bytes, arith, length, length-append, length-take, take, take-append, replicate,
  ◌==◌, if◌then◌else◌, ◌>>=◌,
}
use system_test_suite.Base.Text.{is_text, u32_at}
use system_test_suite.Sms.Types.{Addr, SmsSubmit, gsmd_addr_maxlen}
use system_test_suite.Usock.Shortmsg.{dcs_at, payload_at, addr_at, submit_at}
use system_test_suite.Libgsmd.{u32_octets}
use system_test_suite.Libgsmd.Pins.{text_back, length-text_in}
use system_test_suite.Libgsmd.Sevenbit.{LgsmSms}
use system_test_suite.Libgsmd.Messages.{addr_octets, payload_octets, submit_struct}

-- what the daemon makes of the structure that the library fills in
abbrev pub submit_read : Addr → LgsmSms → SmsSubmit
submit_read addr sms = record {
  addr = addr;
  payload = record {
    length = sms.length % 256;
    coding_scheme = sms.alpha % 256;
    has_header = false;
    is_voicemail = false;
    dcs = record {
      msg_class = 0;
      alphabet = 0;
      is_compressed = 0;
      mwi_group = 0;
      mwi_active = 0;
      mwi_kind = 0;
      raw_dcs_data = 0;
    };
    payload_data = take 140 sms.sms_data ++ replicate 25 0;
  };
  ask_ds = sms.ask_ds;
}

payload_at-cons : (c i : ℕ) (msg : Bytes) → payload_at (c ∷ msg) (suc i) ≡ payload_at msg i
unfolding payload_at dcs_at
payload_at-cons c i msg = simp suc-add

payload_at-append :
    (front msg : Bytes) {i : ℕ} → i ≡ length front → payload_at (front ++ msg) i ≡ payload_at msg 0
payload_at-append front msg e = ap (payload_at (front ++ msg)) e ∙ go front
  where
    go : (w : Bytes) → payload_at (w ++ msg) (length w) ≡ payload_at msg 0
    go [] = refl
    go (c ∷ w) = payload_at-cons c (length w) (w ++ msg) ∙ go w

u32_at-append :
    (front msg : Bytes) {i : ℕ} → i ≡ length front → u32_at (front ++ msg) i ≡ u32_at msg 0
u32_at-append front msg e = ap (u32_at (front ++ msg)) e ∙ go front
  where
    go : (w : Bytes) → u32_at (w ++ msg) (length w) ≡ u32_at msg 0
    go [] = refl
    go (c ∷ w) = (simp suc-add) ∙ go w

-- an address is read back
pub addr_at-addr_octets :
    (addr : Addr) (rest : Bytes)
    → is_text addr.number ≡ true
    → length addr.number ≤ gsmd_addr_maxlen
    → addr_at (addr_octets addr ++ rest) 0 ≡ some addr
unfolding addr_at
addr_at-addr_octets addr rest plain h = rw (text_back 33 addr.number rest plain (omega arith)) refl

payload_back :
    (sms : LgsmSms) (addr : Addr) (more : Bytes)
    → 140 ≤ length sms.sms_data
    → payload_at (payload_octets sms ++ more) 0 ≡ some (submit_read addr sms).payload
unfolding payload_at dcs_at
payload_back sms addr more h =
    let stored = take 140 sms.sms_data ++ replicate 25 0 in
    let size : 165 ≡ length stored = omega (
      arith,
      length-append (take 140 sms.sms_data) (replicate 25 0),
      length-take 140 sms.sms_data,
    ) in
    let kept : take 165 (stored ++ more) ≡ stored =
      ap (λ n. take n (stored ++ more)) size ∙ take-append stored more in
    rw kept refl

word_back :
    (b : Bool) (rest : Bytes)
    → u32_at (u32_octets (if b then 1 else 0) ++ rest) 0 ≡ some (if b then 1 else 0)
word_back true rest = refl
word_back false rest = refl

truth_back : (b : Bool) → not ((if b then 1 else 0) == 0) ≡ b
truth_back true = refl
truth_back false = refl

pub submit_struct-length :
    (addr : Addr) (sms : LgsmSms)
    → length addr.number ≤ gsmd_addr_maxlen
    → 140 ≤ length sms.sms_data
    → length (submit_struct addr sms) ≡ 240
submit_struct-length addr sms h room =
    let payload = payload_octets sms in
    let word = u32_octets (if sms.ask_ds then 1 else 0) in
    let stored = take 140 sms.sms_data in
    omega (
      arith,
      length-text_in 33 addr.number (omega arith),
      length-append (addr_octets addr) (payload ++ 0 ∷ 0 ∷ word),
      length-append payload (0 ∷ 0 ∷ word),
      length-append stored (replicate 25 0),
      length-take 140 sms.sms_data,
    )

three_read :
    {A B C D : Type 0} (f : A → B → C → D)
    → {o : Option A} {p : Option B} {q : Option C} {a : A} {b : B} {c : C} → o ≡ some a
    → p ≡ some b
    → q ≡ some c
    → (o >>= λ x. p >>= λ y. q >>= λ z. some (f x y z)) ≡ some (f a b c)
three_read f g h k = rw (g, h, k) refl

-- the structure that the library fills in is read back
pub submit_at-submit_struct :
    (addr : Addr) (sms : LgsmSms) (rest : Bytes)
    → is_text addr.number ≡ true
    → length addr.number ≤ gsmd_addr_maxlen
    → 140 ≤ length sms.sms_data
    → submit_at (submit_struct addr sms ++ rest) 0 ≡ some (submit_read addr sms)
unfolding submit_at
submit_at-submit_struct addr sms rest plain h room =
    let payload = payload_octets sms in
    let word = u32_octets (if sms.ask_ds then 1 else 0) in
    let front = addr_octets addr in
    let tail = 0 ∷ 0 ∷ (word ++ rest) in
    let stored = take 140 sms.sms_data in
    let first : 34 ≡ length front = omega (arith, length-text_in 33 addr.number (omega arith)) in
    let second : 236 ≡ length (front ++ (payload ++ 0 ∷ 0 ∷ [])) = omega (
      arith,
      first,
      length-append front (payload ++ 0 ∷ 0 ∷ []),
      length-append payload (0 ∷ 0 ∷ []),
      length-append stored (replicate 25 0),
      length-take 140 sms.sms_data,
    ) in
    let ends : submit_struct addr sms ++ rest ≡ front ++ (payload ++ tail) =
      append_assoc front (payload ++ 0 ∷ 0 ∷ word) rest
      ∙ ap (◌++◌ front) (append_assoc payload (0 ∷ 0 ∷ word) rest) in
    let last : submit_struct addr sms ++ rest ≡ front ++ (payload ++ 0 ∷ 0 ∷ []) ++ (word ++ rest) =
      ends
      ∙ ap (◌++◌ front) (sym (append_assoc payload (0 ∷ 0 ∷ []) (word ++ rest)))
      ∙ sym (append_assoc front (payload ++ 0 ∷ 0 ∷ []) (word ++ rest)) in
    three_read _ (ap (λ m. addr_at m 0) ends ∙ addr_at-addr_octets addr (payload ++ tail) plain h)
      (ap (λ m. payload_at m 34) ends
        ∙ payload_at-append front (payload ++ tail) first
        ∙ payload_back sms addr tail room)
      (ap (λ m. u32_at m 236) last
        ∙ u32_at-append (front ++ (payload ++ 0 ∷ 0 ∷ [])) (word ++ rest) second
        ∙ word_back sms.ask_ds rest)
    ∙ ap (λ d. some (record (submit_read addr sms) { ask_ds = d })) (truth_back sms.ask_ds)
