-- ===== src/Events/Errors.antt =====
-- Which error numbers reach the clients.
use system_test_suite.Base.{ℕ, ◌-◌, ◌≡◌, ◌||◌, arith, ◌==◌, if◌then◌else◌, ltb}
use system_test_suite.Events.{is_in_array, in_error, pin, no_event, generate_event_from_cme}

-- the PIN or PUK that an error number calls for, 0 for none
abbrev pub wanted : ℕ → ℕ
wanted e =
    if ltb 39 e
    then if ltb e 48 then e - 32 else 0
    else if e == 5 || (e == 6 || e == 7)
    then e - 2
    else if e == 11 || e == 12
    then e - 10
    else if e == 17 || e == 18
    then e - 11
    else 0

-- Every error number is reported as an error, but for those that call for a PIN or PUK, for which
-- the event names it, and for the numbers 0, 1, 2 and 10, for which no event is made.
pub generate_event_from_cme-wanted :
    (e : ℕ)
    → generate_event_from_cme e ≡ (
        if ltb 0 (wanted e)
        then pin (wanted e)
        else if ltb e 3 || e == 10
        then no_event
        else in_error e)
unfolding generate_event_from_cme is_in_array
generate_event_from_cme-wanted e = ground arith
