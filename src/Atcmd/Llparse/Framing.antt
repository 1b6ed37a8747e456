-- ===== src/Atcmd/Llparse/Framing.antt =====
-- The lines that the low-level parser delivers.
use system_test_suite.Base.{
  ℕ, ◌+◌, ◌≤◌, ◌<◌, ◌≡◌, ◌≢◌, refl, sym, ap, ◌∙◌, Bool, true, not, List, [], ◌∷◌, ◌++◌,
  append_assoc, append-nil, arith, Bytes, length, length-append, All, map, ◌&&◌, ◌==◌,
}
use system_test_suite.Atcmd.Llparse.{
  LlparseState, idle, idle_lf, result, prompt_spc, Llparser, Rc, done, efbig, llparse_buf_size,
  lgsm_atcmd_f_extended, lgsm_atcmd_f_lfcr, has_flag, llparse_in, llparse_byte, Upcall, line,
  prompted, upcalls, after_byte, llparse_string, llparse_init,
}
use system_test_suite.Atcmd.Llparse.Bounds.{filled, parser, append-parser, init-parser}

-- `llparse_string` over two reads, when the first is taken whole.
abbrev pub then_string : Llparser × List Upcall × Rc → Bytes → Llparser × List Upcall × Rc
then_string (q, out, efbig) bytes = (q, out, efbig)
then_string (q, out, done) bytes =
    let (r, later, rc) = llparse_string q bytes in (r, out ++ later, rc)

after_byte-then :
    (qr : Llparser × Rc) (rest : Llparser → Llparser × List Upcall × Rc) (bytes : Bytes)
    → after_byte qr (λ q. then_string (rest q) bytes) ≡ then_string (after_byte qr rest) bytes
unfolding after_byte
after_byte-then (q, efbig) rest bytes = refl
after_byte-then (q, done) rest bytes = go (rest q)
  where
    go :
        (t : Llparser × List Upcall × Rc)
        → (let (r, out, rc) = then_string t bytes in
            ◌≡◌ {A = Llparser × List Upcall × Rc}
              (r, upcalls q.state q ++ out, rc)
              (then_string (t.0, upcalls q.state q ++ t.1, t.2) bytes))
    go (r, out, efbig) = refl
    go (r, out, done) =
        ap (λ o. ((llparse_string r bytes).0, o, (llparse_string r bytes).2))
          (sym (append_assoc (upcalls q.state q) out _))

-- Parsing two reads one after the other, the second only if the first was taken whole, gives the
-- same state, the same calls in the same order and the same code as parsing their bytes at once:
-- how the bytes are cut into reads does not matter.
pub llparse_string-append :
    (llp : Llparser) (a b : Bytes)
    → llparse_string llp (a ++ b) ≡ then_string (llparse_string llp a) b
unfolding llparse_string
llparse_string-append llp [] b = refl
llparse_string-append llp (x ∷ a) b =
    ap (after_byte (llparse_byte llp x)) (λ i q. llparse_string-append q a b i)
    ∙ after_byte-then (llparse_byte llp x) (λ q. llparse_string q a) b

-- A byte that stands for itself within a line.
abbrev pub payload_byte : ℕ → ℕ → Bool
payload_byte flags b = not (b == b'\r') && not (has_flag flags lgsm_atcmd_f_lfcr && b == b'\n')

abbrev pub StartsLine : Bytes → Type 0
StartsLine [] = Unit
StartsLine (b ∷ l) = b ≢ b'>'

-- A line that fits the buffer, holds payload bytes only and does not look like a prompt.
pub record IsLine (flags : ℕ) (l : Bytes) : Type 0 where
  pub payload : All (λ b. payload_byte flags b ≡ true) l
  pub starts : StartsLine l
  pub fits : length l ≤ llparse_buf_size

-- What a modem sends in V1 mode: `<CR><LF>line<CR><LF>`, or the prompt `<CR><LF>> `.
pub data Item : Type 0 where
  reply : Bytes → Item
  ask : Item

abbrev pub IsItem : ℕ → Item → Type 0
IsItem flags (reply l) = IsLine flags l
IsItem flags ask = Unit

abbrev pub frames : List Item → Bytes
frames [] = []
frames (reply l ∷ items) = b'\r' ∷ b'\n' ∷ (l ++ (b'\r' ∷ b'\n' ∷ frames items))
frames (ask ∷ items) = b'\r' ∷ b'\n' ∷ b'>' ∷ b' ' ∷ frames items

-- what the callbacks are to be told
abbrev pub told : Item → Upcall
told (reply l) = line (filled l) (length l)
told ask = prompted

abbrev pub rest_state : LlparseState → List Item → LlparseState
rest_state s [] = s
rest_state s (reply l ∷ items) = rest_state idle items
rest_state s (ask ∷ items) = rest_state prompt_spc items

pub data AtRest : LlparseState → Type 0 where
  idle_rest : AtRest idle
  prompt_rest : AtRest prompt_spc

byte_payload :
    (flags : ℕ) (w : Bytes) (b : ℕ)
    → payload_byte flags b ≡ true
    → length w < llparse_buf_size
    → llparse_in result (parser flags result w) b ≡ (parser flags result (w ++ b ∷ []), done)
unfolding llparse_in
byte_payload flags w b p room = ground (arith, append-parser flags result w b room)

string_one :
    (flags : ℕ) (w : Bytes) (b : ℕ) (rest : Bytes)
    → payload_byte flags b ≡ true
    → length w < llparse_buf_size
    → llparse_string (parser flags result w) (b ∷ rest)
      ≡ llparse_string (parser flags result (w ++ b ∷ [])) rest
unfolding llparse_string
string_one flags w b rest p room =
    ap (λ t. after_byte t (λ q. llparse_string q rest)) (byte_payload flags w b p room)

pub string_payload :
    (flags : ℕ) (w l rest : Bytes)
    → All (λ b. payload_byte flags b ≡ true) l
    → length w + length l ≤ llparse_buf_size
    → llparse_string (parser flags result w) (l ++ rest)
      ≡ llparse_string (parser flags result (w ++ l)) rest
string_payload flags w [] rest p fits = rw append-nil
string_payload flags w (b ∷ l) rest p fits =
    string_one flags w b (l ++ rest) p.0 (omega arith)
    ∙ string_payload flags (w ++ b ∷ []) l rest p.1 (omega (arith, length-append w (b ∷ [])))
    ∙ ap (λ v. llparse_string (parser flags result v) rest) (append_assoc w (b ∷ []) l)

-- Between lines `<CR><LF>` opens a response.
pub string-open :
    (flags : ℕ) {s : LlparseState} (rest : Bytes)
    → has_flag flags lgsm_atcmd_f_extended ≡ true
    → AtRest s
    → llparse_string (parser flags s []) (b'\r' ∷ b'\n' ∷ rest)
      ≡ llparse_string (parser flags idle_lf []) rest
unfolding llparse_string llparse_in
string-open flags rest ext idle_rest = rw ext
string-open flags rest ext prompt_rest = rw ext

abbrev pub tell : Upcall → Llparser × List Upcall × Rc → Llparser × List Upcall × Rc
tell u (r, out, rc) = (r, u ∷ out, rc)

-- `<CR><LF>` closes it: the line is delivered at the first of the two bytes.
string-close :
    (flags : ℕ) (w rest : Bytes)
    → llparse_string (parser flags result w) (b'\r' ∷ b'\n' ∷ rest)
      ≡ tell (line (filled w) (length w)) (llparse_string (parser flags idle []) rest)
unfolding llparse_string llparse_in
string-close flags w rest = refl

first_byte :
    (flags : ℕ) (b : ℕ)
    → payload_byte flags b ≡ true
    → b ≢ b'>'
    → llparse_in idle_lf (parser flags idle_lf []) b ≡ (parser flags result (b ∷ []), done)
unfolding llparse_in
first_byte flags b p ne = ground (arith, append-parser flags result [] b (omega arith))

pub string_first :
    (flags : ℕ) (b : ℕ) (rest : Bytes)
    → payload_byte flags b ≡ true
    → b ≢ b'>'
    → llparse_string (parser flags idle_lf []) (b ∷ rest)
      ≡ llparse_string (parser flags result (b ∷ [])) rest
unfolding llparse_string
string_first flags b rest p ne =
    ap (λ t. after_byte t (λ q. llparse_string q rest)) (first_byte flags b p ne)

string-reply :
    (flags : ℕ) (l rest : Bytes)
    → IsLine flags l
    → llparse_string (parser flags idle_lf []) (l ++ (b'\r' ∷ b'\n' ∷ rest))
      ≡ tell (line (filled l) (length l)) (llparse_string (parser flags idle []) rest)
unfolding llparse_string llparse_in
string-reply flags [] rest v = refl
string-reply flags (b ∷ l) rest v =
    string_first flags b _ v.payload.0 v.starts
    ∙ string_payload flags (b ∷ []) l _ v.payload.1 (omega arith)
    ∙ string-close flags (b ∷ l) rest

string-ask :
    (flags : ℕ) (rest : Bytes)
    → llparse_string (parser flags idle_lf []) (b'>' ∷ b' ' ∷ rest)
      ≡ tell prompted (llparse_string (parser flags prompt_spc []) rest)
unfolding llparse_string llparse_in
string-ask flags rest = refl

string-items :
    (flags : ℕ) {s : LlparseState} (items : List Item)
    → has_flag flags lgsm_atcmd_f_extended ≡ true
    → AtRest s
    → All (IsItem flags) items
    → llparse_string (parser flags s []) (frames items)
      ≡ (parser flags (rest_state s items) [], map told items, done)
unfolding llparse_string
string-items flags [] ext at v = refl
string-items flags (reply l ∷ items) ext at v =
    string-open flags (l ++ (b'\r' ∷ b'\n' ∷ frames items)) ext at
    ∙ string-reply flags l (frames items) v.0
    ∙ ap (tell (told (reply l))) (string-items flags items ext idle_rest v.1)
string-items flags (ask ∷ items) ext at v =
    string-open flags (b'>' ∷ b' ' ∷ frames items) ext at
    ∙ string-ask flags (frames items)
    ∙ ap (tell prompted) (string-items flags items ext prompt_rest v.1)

-- Fed the responses and prompts of a modem in V1 mode, the parser as `atcmd_init` leaves it takes
-- every byte and makes one callback for each, in order: the prompt callback for a prompt, and the
-- line callback for a response, with its bytes (zeros behind them) and its length. It ends at rest
-- with an empty buffer. The responses are lines of at most 1024 payload bytes that do not begin
-- with `>`, and extended parsing is on.
pub llparse_string-frames :
    (flags : ℕ) (items : List Item)
    → has_flag flags lgsm_atcmd_f_extended ≡ true
    → All (IsItem flags) items
    → llparse_string (llparse_init flags) (frames items)
      ≡ (parser flags (rest_state idle items) [], map told items, done)
llparse_string-frames flags items ext v = rw init-parser (string-items flags items ext idle_rest v)
