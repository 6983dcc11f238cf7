-- ===== src/Http/Delivery.antt =====
-- What a response does to a connection, and what the recorder of the logging middleware adds.
use eth_proxy.Prelude.{
  ℕ, ◌≡◌, refl, String, ◌^^◌, List, [], ◌∷◌, Option, none, some, Result, ok, err, arith,
}
use eth_proxy.Json.{Json}
use eth_proxy.Http.{
  ResponseWriter, ResponseRecorder, recorder, recorder_writer, Conn, conn_writer, Header,
  json_error, respond, respond_with_error, status_internal_server_error,
}

-- The two ways in which a handler ends.
pub data Reply : Type 0 where
  success : ℕ → Result Json → Reply
  failure : ℕ → String → Reply

unfoldable pub deliver : {R : Type 0} ⦃w : ResponseWriter R⦄ → Reply → R → R
deliver (success code payload) r = respond code payload r
deliver (failure code e) r = respond_with_error code e r

-- The status and the document of a reply, on a connection that takes them.
abbrev pub status_of : Reply → ℕ
status_of (success code (ok j)) = code
status_of (success code (err e)) = status_internal_server_error
status_of (failure code e) = code

abbrev pub document_of : Reply → Json
document_of (success code (ok j)) = j
document_of (success code (err e)) = json_error (record { error = "respond error: " ^^ e })
document_of (failure code e) = json_error (record { error = e })

-- A connection before anything has been written.
abbrev pub fresh : List (Option String) → Conn
fresh faults = record { header = []; sent = none; body = []; faults = faults }

abbrev pub json_header : Header
json_header = ("Content-Type", "application/json" ∷ []) ∷ []

-- On a connection whose first write succeeds, a reply sends its status once, under the header of JSON,
-- and its document.
pub deliver-fresh :
    (a : Reply) (faults : List (Option String))
    → deliver a (fresh (none ∷ faults)) ≡ record {
      header = json_header;
      sent = some (status_of a, json_header);
      body = document_of a ∷ [];
      faults = faults;
    }
unfolding deliver respond
deliver-fresh (success code (ok j)) faults = refl
deliver-fresh (success code (err e)) faults = refl
deliver-fresh (failure code e) faults = refl

-- The recorder is transparent: what is under it is what there would be without it.
pub inner-deliver :
    {R : Type 0} ⦃w : ResponseWriter R⦄ (a : Reply) (r : ResponseRecorder R)
    → (deliver a r).inner ≡ deliver a r.inner
unfolding deliver respond
inner-deliver (success code (ok j)) r = ground arith
inner-deliver (success code (err e)) r = refl
inner-deliver (failure code e) r = refl

-- What the recorder of such a connection holds: the status and the document that were sent.
pub recorder-deliver-fresh :
    (a : Reply) (faults : List (Option String))
    → deliver a (recorder (fresh (none ∷ faults))) ≡ record {
      inner = record {
        header = json_header;
        sent = some (status_of a, json_header);
        body = document_of a ∷ [];
        faults = faults;
      };
      status_code = status_of a;
      response = some (document_of a);
    }
unfolding deliver respond
recorder-deliver-fresh (success code (ok j)) faults = refl
recorder-deliver-fresh (success code (err e)) faults = refl
recorder-deliver-fresh (failure code e) faults = refl

-- If the first write of a successful reply fails and the next one does not, the status that was
-- sent stays, the document of an error is written behind it, and the recorder holds status 500.
pub recorder-deliver-fault :
    (code : ℕ) (j : Json) (e : String) (faults : List (Option String))
    → deliver (success code (ok j)) (recorder (fresh (some e ∷ none ∷ faults))) ≡ record {
      inner = record {
        header = json_header;
        sent = some (code, json_header);
        body = json_error (record { error = "respond error: " ^^ e }) ∷ [];
        faults = faults;
      };
      status_code = status_internal_server_error;
      response = some (json_error (record { error = "respond error: " ^^ e }));
    }
unfolding deliver respond
recorder-deliver-fault code j e faults = refl
