-- ===== src/Ws/Handshake.antt =====
-- What `connect` leaves behind.
use mathlib.Core.List.{append-nil, append_assoc}
use libsql_client_go.Base.{
  ◌≡◌, refl, ap, sym, ◌∙◌, Bool, true, false, Option, none, some, List, [], ◌∷◌, ◌++◌, arith,
}
use libsql_client_go.Base.Texts.{Text, codes}
use libsql_client_go.Base.Results.{Result, ok, err}
use libsql_client_go.Ws.Dynamic.{
  Dynamic, obj, nil, Members, Panic, assertion_panic, at, is_text, as_object, as_text, error_msg,
  is_error_resp,
}
use libsql_client_go.Ws.Socket.{
  Message, hello, request, open_stream, Socket, Io, then_run, assert, ◌>>=◌, Fault, panicked, write,
  read, taken, close_with, status_protocol_error, of_package, handshake_error, stream_error,
}
use libsql_client_go.Ws.Connect.{
  connect, handshake, say, hear, heard, check_hello, check_stream, fail_with, refuse,
}

-- How an error leaves the socket: closed, unless it is a panic. Behind a failed write or read the package
-- has closed it already.
unfoldable pub Ended : Fault → Socket → Type 0
Ended (panicked p) after = after.closed ≡ none
Ended (handshake_error m) after = after.closed ≡ some status_protocol_error
Ended (stream_error m) after = after.closed ≡ some status_protocol_error
Ended f after = after.closed ≡ some of_package

-- How a part of the handshake leaves an open socket: open, with these messages more, or as an error
-- does.
unfoldable pub Settled {ℓ} : {A : Type ℓ} → List Message → Socket → Result Fault A → Socket → Type 0
Settled ms before (ok u) after = (after.closed ≡ none) × (after.written ≡ before.written ++ ms)
Settled ms before (err f) after = Ended f after

-- Of a part that runs on any open socket.
Settles {ℓ} : {A : Type ℓ} → List Message → Io A → Type 0
Settles ms m = (s : Socket) → s.closed ≡ none → Settled ms s (m s).0 (m s).1

Settled-from {ℓ} :
    {A : Type ℓ} (ms ns : List Message) (before s : Socket) (r : Result Fault A) (after : Socket)
    → s.written ≡ before.written ++ ms
    → Settled ns s r after
    → Settled (ms ++ ns) before r after
unfolding Settled
Settled-from ms ns before s (err e) after h k = k
Settled-from ms ns before s (ok a) after h k =
    (k.0, k.1 ∙ ap (λ (w : List Message). w ++ ns) h ∙ append_assoc before.written ms ns)

then_run-Settled {ℓ κ} :
    {A : Type ℓ} {B : Type κ} (ms ns : List Message) (before : Socket) (r : Result Fault A)
    (s : Socket) (f : A → Io B)
    → Settled ms before r s
    → ((a : A) → Settles ns (f a))
    → Settled (ms ++ ns) before (then_run r s f).0 (then_run r s f).1
unfolding Settled Settles
then_run-Settled ms ns before (err e) s f h k = h
then_run-Settled ms ns before (ok a) s f h k =
    Settled-from ms ns before s (f a s).0 (f a s).1 h.1 (k a s h.0)

>>=-Settles {ℓ κ} :
    {A : Type ℓ} {B : Type κ} (ms ns : List Message) (m : Io A) (f : A → Io B)
    → Settles ms m
    → ((a : A) → Settles ns (f a))
    → Settles (ms ++ ns) (m >>= f)
unfolding Settles
>>=-Settles ms ns m f h k s fresh = then_run-Settled ms ns s (m s).0 (m s).1 f (h s fresh) k

say-Settles : (m : Message) → Settles (m ∷ []) (say m)
unfolding Settles Settled Ended say write fail_with close_with
say-Settles m s fresh = ground arith

heard-Settled :
    (d : Option Dynamic) (before s : Socket)
    → s.closed ≡ none
    → s.written ≡ before.written
    → let r = taken d s in Settled [] before (heard r.0 r.1).0 (heard r.0 r.1).1
unfolding Settled Ended fail_with close_with taken
heard-Settled none before s fresh same = ground arith
heard-Settled (some d) before s fresh same = (fresh, same ∙ sym (append-nil before.written))

hear-Settles : Settles [] hear
unfolding Settles hear read
hear-Settles s fresh = by_reads s.reads
  where
    by_reads :
        (rs : List (Option Dynamic))
        → let r = elim rs as (λ x. Option Dynamic × Socket) [
          | [] ↦ taken none s
          | d ∷ rest ↦ taken d (record s { reads = rest })
        ] in
          Settled [] s (heard r.0 r.1).0 (heard r.0 r.1).1
    by_reads [] = heard-Settled none s s fresh refl
    by_reads (d ∷ rest) = heard-Settled d s (record s { reads = rest }) fresh refl

assert-Settles {ℓ} : {A : Type ℓ} (r : Result Panic A) → Settles [] (assert r)
unfolding Settles Settled Ended
assert-Settles (ok a) s fresh = (fresh, sym (append-nil s.written))
assert-Settles (err p) s fresh = fresh

handshake_error-Settles :
    (m : Text) → Settles {A = Unit {0}} [] (fail_with status_protocol_error (handshake_error m))
unfolding Settles Settled Ended fail_with close_with
handshake_error-Settles m s fresh = ground arith

stream_error-Settles :
    (m : Text) → Settles {A = Unit {0}} [] (fail_with status_protocol_error (stream_error m))
unfolding Settles Settled Ended fail_with close_with
stream_error-Settles m s fresh = ground arith

refuse-Settles :
    (bad : Bool) (fault : Text → Fault) (d : Dynamic)
    → ((m : Text) → Settles {A = Unit {0}} [] (fail_with status_protocol_error (fault m)))
    → Settles [] (refuse bad fault d)
refuse-Settles true fault d h =
    >>=-Settles [] [] (assert (error_msg d)) _ (assert-Settles (error_msg d)) h
refuse-Settles false fault d h =
    unfold Settles Settled in λ s fresh. (fresh, sym (append-nil s.written))

check_hello-Settles : (d : Dynamic) → Settles [] (check_hello d)
unfolding check_hello
check_hello-Settles d =
    >>=-Settles [] [] (assert (as_object d)) _ (assert-Settles (as_object d))
      (λ m. refuse-Settles _ handshake_error d handshake_error-Settles)

check_stream-Settles : (d e : Dynamic) → Settles [] (check_stream d e)
unfolding check_stream
check_stream-Settles d e =
    >>=-Settles [] [] (assert (is_error_resp e)) _ (assert-Settles (is_error_resp e))
      (λ bad. refuse-Settles bad stream_error d stream_error-Settles)

-- `connect`, on a socket that was dialled: where it succeeds, the socket is open, and what was
-- written is the hello and then the request for stream 0; where it returns an error, the socket is
-- closed, with the status of a protocol error if the server refused, and for the package's own reason
-- if a write or a read failed; only a panic leaves it open.
pub handshake-Settled :
    (jwt : Text) (s : Socket)
    → s.closed ≡ none
    → let r = handshake jwt s in Settled (hello jwt ∷ (request 0 (open_stream 0) ∷ [])) s r.0 r.1
unfolding handshake Settles
handshake-Settled jwt s fresh =
    >>=-Settles (hello jwt ∷ []) (request 0 (open_stream 0) ∷ []) (say (hello jwt)) _
      (say-Settles _)
      (λ u. >>=-Settles (request 0 (open_stream 0) ∷ []) [] (say _) _ (say-Settles _) (λ v.
        >>=-Settles [] [] hear _ hear-Settles (λ d.
          >>=-Settles [] [] (check_hello d) _ (check_hello-Settles d)
            (λ w. >>=-Settles [] [] hear _ hear-Settles (λ e. check_stream-Settles d e)))))
      s fresh

-- A server that accepts the hello, in a response without `error`, and then refuses to open the stream
-- makes `connect` panic, since it takes the message from the response to the hello.
pub connect-refused :
    (jwt : Text) (s : Socket) (hello_resp open_stream_resp : Members)
    (later : List (Option Dynamic)) (more : List Bool)
    → s.writes ≡ true ∷ (true ∷ more)
    → s.reads ≡ some (obj hello_resp) ∷ (some (obj open_stream_resp) ∷ later)
    → is_text (at (codes "type") hello_resp) (codes "hello_error") ≡ false
    → at (codes "error") hello_resp ≡ nil
    → is_text (at (codes "type") open_stream_resp) (codes "response_error") ≡ true
    → (connect (some s) jwt).0 ≡ err (panicked assertion_panic)
unfolding connect handshake say hear check_hello check_stream write read is_error_resp error_msg
    as_object as_text
connect-refused jwt s hello_resp open_stream_resp later more ws rs good bare bad = ground arith
