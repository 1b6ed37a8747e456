-- ===== src/Tests/Lines.antt =====
-- The mid-level parser on the answer to AT+CGMI.
use system_test_suite.Base.{
  ◌≤◌, List, Bytes, ◌≡◌, refl, true, false, none, some, [], ◌∷◌, ◌++◌, arith, codes, length,
  replicate,
}
use system_test_suite.Base.Int.{pos, negsuc}
use system_test_suite.Atcmd.Llparse.{idle, done, llparse_init}
use system_test_suite.Atcmd.Llparse.Bounds.{parser}
use system_test_suite.Atcmd.Llparse.Framing.{IsLine}
use system_test_suite.Atcmd.Uart.{
  received, uart_readable, uart_readable-joined, uart_readable-response,
}
use system_test_suite.Atcmd.Queue.{atcmd_text, callback, Atcmd, Gsmd, Env, cstr}
use system_test_suite.Atcmd.Mlparse.Texts.{strings_equal, starts_with, equal_in, has_char}
use system_test_suite.Atcmd.Mlparse.{
  Parsed, mlparse_buf_size, append_info, plain_kind, is_ready, ml_parse, ml_lines,
}
use system_test_suite.Atcmd.Mlparse.Response.{answering, answered, IsInfo, ml_lines-response}
use system_test_suite.Atcmd.Mlparse.Room.{append_info-Fits}
use system_test_suite.Atcmd.Mlparse.Total.{IsFilled, ml_parse_total}

abbrev quiet_env : Env
quiet_env = record {
  callbacks = λ f cmd text. ([], pos 0);
  initsettings = [];
  unsolicited = λ g text param. (g, negsuc 1);
  new_timer = some 1;
}

abbrev ti_gsmd : Gsmd
ti_gsmd = record {
  flag_v0 = false;
  interpreter_ready = true;
  wants_write = false;
  pending = [];
  busy = [];
  mlbuf = [];
  mlunsolicited = false;
  wakeup_timer = none;
  ext_chars = codes "%@";
}

abbrev cgmi : Atcmd
cgmi = record {
  id = 4;
  cb = callback 3;
  ret = negsuc 254;
  buflen = 0;
  cur = 8;
  buf = codes "AT+CGMI" ++ 0 ∷ [];
}

maker-IsInfo : IsInfo ti_gsmd cgmi (codes "FIC")
unfolding is_ready cstr strings_equal starts_with equal_in has_char plain_kind
maker-IsInfo = record { not_ready = refl; not_echo = refl; not_extended = refl; kind = refl }

model-IsInfo : IsInfo ti_gsmd cgmi (codes "GTA02")
unfolding is_ready cstr strings_equal starts_with equal_in has_char plain_kind
model-IsInfo = record { not_ready = refl; not_echo = refl; not_extended = refl; kind = refl }

ml_lines-response_example :
    ml_lines quiet_env
      (answering ti_gsmd (record cgmi { cb = callback 3 }) [] [])
      []
      (codes "FIC" ∷ codes "GTA02" ∷ codes "OK" ∷ [])
    ≡ some (answered quiet_env ti_gsmd cgmi [] 3 (codes "FIC\nGTA02"))
unfolding cstr equal_in has_char
ml_lines-response_example =
    ml_lines-response quiet_env ti_gsmd cgmi [] 3 b'F' (codes "IC") [] (codes "GTA02" ∷ [])
      (maker-IsInfo, (model-IsInfo, tt)) (omega arith) refl refl

append_info-Fits_example :
    length (append_info quiet_env ti_gsmd (codes "FIC") (pos 0)).0.mlbuf ≤ mlparse_buf_size
append_info-Fits_example =
    append_info-Fits quiet_env ti_gsmd (codes "FIC") (pos 0) refl (omega arith)

abbrev full_gsmd : Gsmd
full_gsmd = record ti_gsmd { mlbuf = replicate 65535 b'x' }

cgmi-IsFilled : IsFilled cgmi
unfolding atcmd_text
cgmi-IsFilled = record { text = codes "AT+CGMI"; size = 8; room = omega arith; filled = refl }

ml_parse_total_example :
    (p : Parsed) × (ml_parse quiet_env (record ti_gsmd { busy = cgmi ∷ [] }) [] (codes "+CREG: 1")
      ≡ some p)
ml_parse_total_example =
    ml_parse_total quiet_env (record ti_gsmd { busy = cgmi ∷ [] }) [] (codes "+CREG: 1")
      (cgmi-IsFilled, tt)

-- the answer, cut into three reads
abbrev three_reads : List Bytes
three_reads = codes "\r\nFIC\r" ∷ codes "\n\r\nGTA02\r\n\r\nO" ∷ codes "K\r\n" ∷ []

abbrev cgmi_waits : Gsmd
cgmi_waits = answering ti_gsmd (record cgmi { cb = callback 3 }) [] []

uart_readable-joined_example :
    uart_readable quiet_env [] cgmi_waits (llparse_init 1) three_reads
    ≡ received quiet_env [] cgmi_waits (llparse_init 1) (codes "\r\nFIC\r\n\r\nGTA02\r\n\r\nOK\r\n")
uart_readable-joined_example =
    uart_readable-joined quiet_env [] cgmi_waits (llparse_init 1) three_reads

maker-IsLine : IsLine 1 (codes "FIC")
maker-IsLine = record {
  payload = (refl, (refl, (refl, tt)));
  starts = ground arith;
  fits = omega arith;
}

model-IsLine : IsLine 1 (codes "GTA02")
model-IsLine = record {
  payload = (refl, (refl, (refl, (refl, (refl, tt)))));
  starts = ground arith;
  fits = omega arith;
}

end-IsLine : IsLine 1 (codes "OK")
end-IsLine = record { payload = (refl, (refl, tt)); starts = ground arith; fits = omega arith }

uart_readable-response_example :
    uart_readable quiet_env [] cgmi_waits (llparse_init 1) three_reads
    ≡ some (answered quiet_env ti_gsmd cgmi [] 3 (codes "FIC\nGTA02"), parser 1 idle [], done)
unfolding cstr equal_in has_char
uart_readable-response_example =
    uart_readable-response quiet_env 1 ti_gsmd cgmi [] 3 b'F' (codes "IC") [] (codes "GTA02" ∷ [])
      three_reads refl refl (maker-IsLine, (model-IsLine, (end-IsLine, tt)))
      (omega arith, (omega arith, (omega arith, tt))) (maker-IsInfo, (model-IsInfo, tt))
      (omega arith) refl refl
