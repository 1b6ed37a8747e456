-- ===== src/Usock/Waiting.antt =====
-- The messages that wait to be written to a client.
use mathlib.Core.Option
use mathlib.Core.Option.{some_inj}
use system_test_suite.Base.{
  ℕ, zero, suc, ◌+◌, ◌≡◌, ◌≢◌, length, ne→==, refl, ap, ◌∙◌, subst, ◌⊎◌, inl, inr, true,
  Option-cases, Option, none, some, List, [], ◌∷◌, ◌++◌, Bytes, ◌>>=◌, ==_iff,
}
use system_test_suite.Base.Int.{ℤ, pos, negsuc}
use system_test_suite.Atcmd.Queue.{Env}
use system_test_suite.Events.{Ucmd, User}
use system_test_suite.Usock.Message.{
  hdr_size, World, Session, Action, perform, returns, submits, cancels, subscribes, turns_off,
  empties_readrg, empties_find, replies, turns_on, collects_readrg, collects_find,
}
use system_test_suite.Usock.Client.{
  pcmd_action, usock_rcv_pcmd, Client, gone, remains, user_readable, Flushed, flush, flush_first,
  after_flush, user_writable,
}

-- While messages wait, the daemon asks to write to the client.
abbrev pub IsServed : User → Type 0
IsServed gu = (gu.finished ≡ []) ⊎ (gu.wants_write ≡ true)

perform-IsServed :
    (env : Env) (a : Action) (s : Session) → IsServed s.user → IsServed (perform env a s).0.user
unfolding perform
perform-IsServed env (returns rc) s h = h
perform-IsServed env (submits cmd a) s h = perform-IsServed env a _ h
perform-IsServed env (cancels cmd) s h = h
perform-IsServed env (subscribes mask a) s h = perform-IsServed env a _ h
perform-IsServed env (turns_off a) s h = perform-IsServed env a _ h
perform-IsServed env (empties_readrg a) s h = perform-IsServed env a _ h
perform-IsServed env (empties_find a) s h = perform-IsServed env a _ h
perform-IsServed env (replies ucmd a) s h = perform-IsServed env a _ (inr refl)
perform-IsServed env (turns_on a) s h = perform-IsServed env a _ h
perform-IsServed env (collects_readrg pbs a) s h = perform-IsServed env a _ h
perform-IsServed env (collects_find pbs a) s h = perform-IsServed env a _ h

after_flush-IsServed :
    (gu : User) (left : List Ucmd) (failed : Option ℤ)
    → gu.wants_write ≡ true
    → IsServed (after_flush gu left failed).0
after_flush-IsServed gu left (some rc) e = inr e
after_flush-IsServed gu [] none e = inl refl
after_flush-IsServed gu (ucmd ∷ left) none e = inr e

writable-IsServed :
    (gu : User) (results : ℕ → ℤ) → IsServed gu → IsServed (user_writable gu results).0
unfolding user_writable flush
writable-IsServed gu results (inl e) =
    inl (ap (λ l. (after_flush gu (flush results l).left (flush results l).failed).0.finished) e)
writable-IsServed gu results (inr e) =
    after_flush-IsServed gu (flush results gu.finished).left (flush results gu.finished).failed e

-- as long as the client is there; what is left behind for one that has gone is not written
abbrev ServedIfThere : Client → Type 0
ServedIfThere (gone left) = Unit
ServedIfThere (remains s) = IsServed s.user

-- what the socket of a client brings: what `read` returns with its array, or what `write` returns
pub data SocketEvent : Type 0 where
  readable : ℤ → Bytes → SocketEvent
  writable : (ℕ → ℤ) → SocketEvent

-- the callback of the socket, for a client that is still there
unfoldable pub client_event : World → Client → SocketEvent → Option Client
unfolding user_readable user_writable
client_event w (gone left) e = some (gone left)
client_event w (remains s) (readable rcvlen buf) =
    Option.map (λ r. r.0) (user_readable w s rcvlen buf)
client_event w (remains s) (writable results) =
    some (remains (record s { user = (user_writable s.user results).0 }))

unfoldable pub client_events : World → Client → List SocketEvent → Option Client
unfolding client_event
client_events w c [] = some c
client_events w c (e ∷ events) = client_event w c e >>= λ d. client_events w d events

-- it holds if there is something
data Holds (P : Client → Type 0) : Option Client → Type 0 where
  nothing : Holds P none
  holds : {c : Client} → P c → Holds P (some c)

readable-IsServed :
    (w : World) (s : Session) (rcvlen : ℤ) (buf : Bytes)
    → IsServed s.user
    → Holds ServedIfThere (Option.map (λ r. r.0) (user_readable w s rcvlen buf))
unfolding user_readable usock_rcv_pcmd
readable-IsServed w s (pos zero) buf h = holds tt
readable-IsServed w s (negsuc k) buf h = holds h
readable-IsServed w s (pos (suc n)) buf h = elim (Option-cases (pcmd_action w s buf (suc n))) [
  | inl e ↦ rw e nothing
  | inr (a, e) ↦ rw e (holds (perform-IsServed w.env a s h))
]

event-IsServed :
    (w : World) (c : Client) (e : SocketEvent)
    → ServedIfThere c
    → Holds ServedIfThere (client_event w c e)
unfolding client_event
event-IsServed w (gone left) e h = holds tt
event-IsServed w (remains s) (readable rcvlen buf) h = readable-IsServed w s rcvlen buf h
event-IsServed w (remains s) (writable results) h = holds (writable-IsServed s.user results h)

kept_bind :
    {o : Option Client} {f : Client → Option Client}
    → Holds ServedIfThere o
    → ((c : Client) → ServedIfThere c → Holds ServedIfThere (f c))
    → Holds ServedIfThere (o >>= f)
kept_bind nothing next = nothing
kept_bind (holds {c} k) next = next c k

events-IsServed :
    (w : World) (c : Client) (events : List SocketEvent)
    → ServedIfThere c
    → Holds ServedIfThere (client_events w c events)
unfolding client_events
events-IsServed w c [] h = holds h
events-IsServed w c (e ∷ events) h =
    kept_bind (event-IsServed w c e h) (λ d k. events-IsServed w d events k)

-- As long as a client is there, while messages wait for it the daemon asks to write to it, through
-- any requests, failed and short reads and writes of the client: when it is so at first, and
-- the client is still there after these events, it is so after them.
pub client_events-IsServed :
    (w : World) (first last : Session) (events : List SocketEvent)
    → IsServed first.user
    → client_events w (remains first) events ≡ some (remains last)
    → IsServed last.user
client_events-IsServed w first last events h e =
    at_end (events-IsServed w (remains first) events h) e
  where
    at_end :
        {o : Option Client} → Holds ServedIfThere o → o ≡ some (remains last) → IsServed last.user
    at_end nothing e = absurd cc
    at_end (holds k) e = subst ServedIfThere (some_inj.0 e) k

-- Every one of the messages is written whole.
abbrev pub Written : (ℕ → ℤ) → List Ucmd → Type 0
Written results [] = Unit
Written results (ucmd ∷ ucmds) =
    (results 0 ≡ pos (hdr_size + ucmd.len)) × Written (λ n. results (suc n)) ucmds

-- The first message is not written whole.
abbrev pub Stops : ℤ → List Ucmd → Type 0
Stops rc [] = Unit
Stops rc (ucmd ∷ ucmds) = rc ≢ pos (hdr_size + ucmd.len)

flush_stopped :
    (rc : ℤ) (ucmd : Ucmd) (ucmds : List Ucmd) (rest : Flushed)
    → rc ≢ pos (hdr_size + ucmd.len)
    → (flush_first rc ucmd ucmds rest).left ≡ ucmd ∷ ucmds
flush_stopped (negsuc k) ucmd ucmds rest n = refl
flush_stopped (pos m) ucmd ucmds rest n =
    rw (ne→== m (hdr_size + ucmd.len) (λ e. n (ap pos e))) refl

flush-left :
    (results : ℕ → ℤ) (before after : List Ucmd)
    → Written results before
    → Stops (results (length before)) after
    → (flush results (before ++ after)).left ≡ after
unfolding flush
flush-left results [] [] w s = refl
flush-left results [] (ucmd ∷ after) w s = flush_stopped (results 0) ucmd after _ s
flush-left results (ucmd ∷ before) after (e, w) s =
    ap
      (λ r.
        (flush_first r ucmd (before ++ after)
          (flush (λ n. results (suc n)) (before ++ after))).left)
      e
    ∙ rw ((==_iff (hdr_size + ucmd.len) (hdr_size + ucmd.len)).1 refl)
        (flush-left (λ n. results (suc n)) before after w s)

after_flush-finished :
    (gu : User) (left : List Ucmd) (failed : Option ℤ)
    → (after_flush gu left failed).0.finished ≡ left
after_flush-finished gu left (some rc) = refl
after_flush-finished gu left none = refl

-- If the first messages that wait for a client are written whole and the one behind them is not
-- (`write` fails, returns 0 or writes a part), or there is none, then exactly those that were
-- written are taken out, and the others wait in their order.
pub user_writable-finished :
    (gu : User) (results : ℕ → ℤ) (before after : List Ucmd)
    → gu.finished ≡ before ++ after
    → Written results before
    → Stops (results (length before)) after
    → (user_writable gu results).0.finished ≡ after
unfolding user_writable
user_writable-finished gu results before after e w s =
    let f = flush results gu.finished in
    after_flush-finished gu f.left f.failed
    ∙ ap (λ l. (flush results l).left) e
    ∙ flush-left results before after w s
