-- ===== src/Remote/Mutations.antt =====
-- internal/serverprotocol/client.go: the calls that may change the state of the server.
use talon_sdk_go.Base.{
  ℕ, ◌≡◌, ◌⊎◌, inl, inr, refl, Bool, true, false, Option, none, some, [], ◌∷◌, Bytes, Error, Result,
  ok, err, codes,
}
use talon_sdk_go.Remote.{
  max_server_response_bytes, Client, Context, Outgoing, Response, Codec, indeterminate,
}
use talon_sdk_go.Remote.Calls.{
  CallOutcome, then_read, Params, set_params, key_params, batch_params, Encoding, validate_kv,
  kv_call, kv, storage_call, storage, checked, read_flag, kv_set, kv_set_nx, kv_del,
  read_transaction, execute_transaction,
}
use talon_sdk_go.Remote.Failures.{bind_err, err_inj}
use talon_sdk_go.Remote.Answers.{IsReported, do_call_err}

-- The calls that may change the state; a transaction is the wire form that was built of its request,
-- or the error in place of it, with the decoder of its result.
pub data Write : Type 0 where
  set_write : Bytes → Bytes → Option ℕ → Write
  set_nx_write : Bytes → Bytes → Option ℕ → Write
  delete_write : Bytes → Write
  transaction_write : Result Bytes → (Bytes → Result Bytes) → Write

abbrev done {ℓ} : {A : Type ℓ} → A → Result (Unit {0})
done _ = ok tt

module _ (codec : Codec) (encoding : Encoding) (server : Outgoing → Option Response) where
  unfoldable pub write_outcome : Option Client → Context → Write → CallOutcome (Unit {0})
  write_outcome client context (set_write key text ttl) =
      then_read (kv_set codec encoding server client context key text ttl) done
  write_outcome client context (set_nx_write key text ttl) =
      then_read (kv_set_nx codec encoding server client context key text ttl) done
  write_outcome client context (delete_write key) =
      then_read (kv_del codec encoding server client context key) done
  write_outcome client context (transaction_write wire decode) =
      then_read (execute_transaction codec encoding server client context wire decode) done

  -- An outcome whose error, behind a request that went out, is indeterminate or the server's.
  abbrev Certain {ℓ} : {A : Type ℓ} → CallOutcome A → Type ℓ
  Certain outcome =
      (request : Outgoing) (e : Error)
      → outcome.sent ≡ request ∷ []
      → outcome.result ≡ err e
      → (indeterminate ≡ e) ⊎ IsReported codec max_server_response_bytes (server request) e

  Certain-then_read :
      {A B : Type 0} (outcome : CallOutcome A) (next : A → Result B)
      → Certain outcome
      → ((a : A) (e : Error) → next a ≡ err e → indeterminate ≡ e)
      → Certain (then_read outcome next)
  Certain-then_read outcome next certain reads request e out h =
      elim (bind_err outcome.result next h) [
        | inl early ↦ certain request e out early
        | inr (a, _, late) ↦ inl (reads a e late)
      ]

  Certain-checked :
      {A : Type 0} (test : Result (Unit {0})) (outcome : CallOutcome A)
      → Certain outcome
      → Certain (checked codec encoding server test outcome)
  Certain-checked (ok _) outcome certain request e out h = certain request e out h
  Certain-checked (err failure) outcome certain request e out h = cc

  Certain-kv :
      (client : Option Client) (context : Context) (action : Bytes) (params : Params)
      (require_data : Bool)
      → Certain (kv codec encoding server client context action params true require_data)
  unfolding kv kv_call
  Certain-kv none context action params require_data request e out h = cc
  Certain-kv (some c) context action params require_data request e out h =
      do_call_err codec server (some c) context
        (kv_call codec encoding server c action params true require_data) request e refl out h

  Certain-storage :
      (client : Option Client) (context : Context) (action : Bytes) (params : Params)
      → Certain (storage codec encoding server client context action params true)
  unfolding storage storage_call
  Certain-storage none context action params request e out h = cc
  Certain-storage (some c) context action params request e out h =
      do_call_err codec server (some c) context
        (storage_call codec encoding server c action params true) request e refl out h

  done_err : {A : Type 0} (a : A) (e : Error) → done a ≡ err e → indeterminate ≡ e
  done_err a e h = cc

  flag_err :
      (name payload : Bytes) (e : Error)
      → read_flag codec encoding server name indeterminate payload ≡ err e
      → indeterminate ≡ e
  unfolding read_flag
  flag_err name payload e h = flag_cases (encoding.flag_of name payload) h
    where
      flag_cases :
          (flag : Option Bool)
          → (elim flag [ none ↦ err indeterminate | some f ↦ ok f ]) ≡ err e
          → indeterminate ≡ e
      flag_cases none h = err_inj h
      flag_cases (some f) h = cc

  transaction_err :
      (decode : Bytes → Result Bytes) (payload : Bytes) (e : Error)
      → read_transaction codec encoding server decode payload ≡ err e
      → indeterminate ≡ e
  unfolding read_transaction
  transaction_err decode payload e h = decoded (decode payload) h
    where
      decoded :
          (r : Result Bytes)
          → (elim r [ ok a ↦ ok a | err _ ↦ err indeterminate ]) ≡ err e
          → indeterminate ≡ e
      decoded (ok a) h = cc
      decoded (err _) h = err_inj h

  Certain-write_outcome :
      (client : Option Client) (context : Context) (w : Write)
      → Certain (write_outcome client context w)
  unfolding write_outcome kv_set kv_set_nx kv_del execute_transaction
  Certain-write_outcome client context (set_write key text ttl) =
      Certain-then_read _ done
        (Certain-checked (validate_kv key (some text)) _
          (Certain-kv client context (codes "set") (set_params key text ttl) false))
        done_err
  Certain-write_outcome client context (set_nx_write key text ttl) =
      Certain-then_read _ done
        (Certain-checked (validate_kv key (some text)) _ (
          Certain-then_read _ _
            (Certain-kv client context (codes "setnx") (set_params key text ttl) true)
            (flag_err (codes "set"))))
        done_err
  Certain-write_outcome client context (delete_write key) =
      Certain-then_read _ done
        (Certain-checked (validate_kv key none) _ (
          Certain-then_read _ _ (Certain-kv client context (codes "del") (key_params key) true)
            (flag_err (codes "deleted"))))
        done_err
  Certain-write_outcome client context (transaction_write (err failure) decode) =
      λ request e out h. cc
  Certain-write_outcome client context (transaction_write (ok wire) decode) =
      Certain-then_read _ done
        (Certain-then_read _ _
          (Certain-storage client context (codes "conditional_batch") (batch_params wire))
          (transaction_err decode))
        done_err

  -- Where a set, a set of an absent key, a deletion or a transaction has sent its request, an error of
  -- the call says that the result is indeterminate, or it is the error that the server reported: the
  -- answer has status 200, a JSON media type and a body of at most 16 MiB, that body is an envelope of
  -- failure with a message and without data, and the error has the machine code, the term and the hint
  -- of that envelope.
  pub write_outcome-IsReported :
      (client : Option Client) (context : Context) (w : Write) (request : Outgoing) (e : Error)
      → (write_outcome client context w).sent ≡ request ∷ []
      → (write_outcome client context w).result ≡ err e
      → (indeterminate ≡ e) ⊎ IsReported codec max_server_response_bytes (server request) e
  write_outcome-IsReported client context w request e out h =
      Certain-write_outcome client context w request e out h
