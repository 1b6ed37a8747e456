-- ===== src/Tests/Parsing.antt =====
-- The low-level parser on a few bytes.
use system_test_suite.Base.{
  ℕ, zero, suc, ◌≡◌, refl, true, List, [], ◌∷◌, map, arith, Bytes, codes, replicate, All,
  length-replicate,
}
use system_test_suite.Atcmd.Llparse.{idle, done, llparse_string, llparse_init}
use system_test_suite.Atcmd.Llparse.Bounds.{
  parser, InBounds, llparse_init-InBounds, llparse_string-InBounds,
}
use system_test_suite.Atcmd.Llparse.Framing.{
  payload_byte, IsLine, Item, reply, ask, frames, told, llparse_string-frames,
}

abbrev answer : List Item
answer = reply (codes "+CPIN: READY") ∷ ask ∷ reply (codes "OK") ∷ []

ok-IsLine : IsLine 1 (codes "OK")
ok-IsLine = record { payload = (refl, (refl, tt)); starts = ground arith; fits = omega arith }

ready-IsLine : IsLine 1 (codes "+CPIN: READY")
ready-IsLine = record {
  payload = (
    refl,
    (refl, (refl, (refl, (refl, (refl, (refl, (refl, (refl, (refl, (refl, (refl, tt))))))))))),
  );
  starts = ground arith;
  fits = omega arith;
}

llparse_string-frames_example :
    llparse_string (llparse_init 1) (frames answer) ≡ (parser 1 idle [], map told answer, done)
llparse_string-frames_example =
    llparse_string-frames 1 answer refl (ready-IsLine, (tt, (ok-IsLine, tt)))

llparse_string-InBounds_example :
    InBounds (llparse_string (llparse_init 1) (codes "\r\nRING\r\n")).0
llparse_string-InBounds_example =
    llparse_string-InBounds (llparse_init 1) (codes "\r\nRING\r\n") (llparse_init-InBounds 1)

abbrev long_line : Bytes
long_line = replicate 1024 b'a'

payload-All : (n : ℕ) → All (λ b. payload_byte 1 b ≡ true) (replicate n b'a')
payload-All zero = tt
payload-All (suc n) = (refl, payload-All n)

long_line-IsLine : IsLine 1 long_line
long_line-IsLine = record {
  payload = payload-All 1024;
  starts = ground arith;
  fits = omega (arith, length-replicate {A = ℕ} 1024 b'a');
}
