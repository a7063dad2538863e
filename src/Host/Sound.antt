-- ===== src/Host/Sound.antt =====
-- Code that returns when what it calls does, and appends no row that its table does not take.
use tilt_common.Base.{◌≢◌, refl, Bool, true, false, Option, none, some, Bytes, if◌then◌else◌}
use tilt_common.Errors.{Step, Error, Result, ok, err, stuck, wrapping}
use tilt_common.Errors
use tilt_common.Host.{Body, Client, Request, Resource, QueryRequest, Event, LogLine, Trace, Host}
use tilt_common.Host.Io.{
  Io, ◌>>=◌, continue, granted, lift, wrapped, attempt, deferring, act, acquire, close, log, ask,
  refusal,
}
use tilt_common.Proto.Wire.{IsProtowire}
use tilt_common.Schema.Rows.{IsTyped, AllTyped}

-- Every Go function that the program calls returns, with a value or an error, and protowire is as
-- documented.
pub record Answers (H : Host) : Type 0 where
  pub url_parse : (s : Bytes) → H.url_parse s ≢ stuck
  pub decode_services : (b : Body) → H.decode_services b ≢ stuck
  pub decode_traces : (b : Body) → H.decode_traces b ≢ stuck
  pub unmarshal_metric_line : (s : Bytes) → H.unmarshal_metric_line s ≢ stuck
  pub unmarshal_log_line : (s : Bytes) → H.unmarshal_log_line s ≢ stuck
  pub unmarshal_object : (s : Bytes) → H.unmarshal_object s ≢ stuck
  pub unmarshal_query_response : (s : Bytes) → H.unmarshal_query_response s ≢ stuck
  pub marshal_query_request : (q : QueryRequest) → H.marshal_query_request q ≢ stuck
  pub base64_decode : (s : Bytes) → H.base64_decode s ≢ stuck
  pub parse_rfc3339 : (s : Bytes) → H.parse_rfc3339 s ≢ stuck
  pub protowire : IsProtowire H.protowire
  pub respond : (tr : Trace) (c : Client) (r : Request) → H.respond tr c r ≢ stuck

-- Results that are there.
module _ {ℓ} {A : Type ℓ} where
  pub ok-ne-stuck : (a : A) → ok a ≢ stuck
  ok-ne-stuck a h = cc

  pub err-ne-stuck : (e : Error) → ◌≢◌ {A = Result A} (err e) stuck
  err-ne-stuck e h = cc

  pub wrapping-ne-stuck : (s : Step) (r : Result A) → r ≢ stuck → wrapping s r ≢ stuck
  wrapping-ne-stuck s (ok a) h = λ p. cc
  wrapping-ne-stuck s (err e) h = λ p. cc
  wrapping-ne-stuck s stuck h = absurd (h refl)

  pub if-ne-stuck :
      (b : Bool) (r s : Result A) → r ≢ stuck → s ≢ stuck → (if b then r else s) ≢ stuck
  if-ne-stuck true r s h k = h
  if-ne-stuck false r s h k = k

pub bind-ne-stuck {ℓ κ} :
    {A : Type ℓ} {B : Type κ} (r : Result A) (f : A → Result B)
    → r ≢ stuck
    → ((a : A) → f a ≢ stuck)
    → Errors.◌>>=◌ r f ≢ stuck
bind-ne-stuck (ok a) f h k = k a
bind-ne-stuck (err e) f h k = λ p. cc
bind-ne-stuck stuck f h k = absurd (h refl)

pub refusal-ne-stuck : (o : Option Error) → refusal o ≢ stuck
refusal-ne-stuck none h = cc
refusal-ne-stuck (some e) h = cc

-- `m` keeps a trace typed, and given `P` it ends in a value or an error.
pub record Sound (P : Type 0) {A : Type 0} (m : Io A) : Type 0 where
  pub typed : (tr : Trace) → AllTyped tr → AllTyped (m tr).1
  pub returns : P → (tr : Trace) → (m tr).0 ≢ stuck

continue-ne-stuck :
    {A B : Type 0} (r : Result A) (f : A → Io B) (tr : Trace)
    → ((a : A) → (f a tr).0 ≢ stuck)
    → r ≢ stuck
    → (continue r f tr).0 ≢ stuck
continue-ne-stuck (ok a) f tr h k = h a
continue-ne-stuck (err e) f tr h k = err-ne-stuck e
continue-ne-stuck stuck f tr h k = absurd (k refl)

module _ {P : Type 0} where
  module _ {A : Type 0} where
    pub Sound-lift : (r : Result A) → (P → r ≢ stuck) → Sound P (lift r)
    unfolding lift
    Sound-lift r h = record { typed = λ tr t. t; returns = λ law tr. h law }

    pub Sound-pure : (a : A) → Sound P (lift (ok a))
    Sound-pure a = Sound-lift (ok a) (λ law. ok-ne-stuck a)

    pub Sound-raise : (e : Error) → Sound P (lift {A = A} (err e))
    Sound-raise e = Sound-lift (err e) (λ law. err-ne-stuck e)

    pub Sound-ask : (f : Trace → A) → Sound P (ask f)
    unfolding ask
    Sound-ask f = record { typed = λ tr t. t; returns = λ law tr. ok-ne-stuck (f tr) }

    pub Sound-wrapped : (s : Step) (m : Io A) → Sound P m → Sound P (wrapped s m)
    unfolding wrapped
    Sound-wrapped s m h = record {
      typed = h.typed;
      returns = λ law tr. wrapping-ne-stuck s (m tr).0 (h.returns law tr);
    }

    pub Sound-deferring : (r : Resource) (m : Io A) → Sound P m → Sound P (deferring r m)
    unfolding deferring
    Sound-deferring r m h = record { typed = λ tr t. (tt, h.typed tr t); returns = h.returns }

    pub Sound-if : (b : Bool) (m n : Io A) → Sound P m → Sound P n → Sound P (if b then m else n)
    Sound-if true m n h k = h
    Sound-if false m n h k = k

  module _ {A : Type 0} {B : Type 0} where
    continue-typed :
        (r : Result A) (f : A → Io B) (tr : Trace)
        → ((a : A) → Sound P (f a))
        → AllTyped tr
        → AllTyped (continue r f tr).1
    continue-typed (ok a) f tr h t = (h a).typed tr t
    continue-typed (err e) f tr h t = t
    continue-typed stuck f tr h t = t

    pub Sound-bind :
        (m : Io A) (f : A → Io B) → Sound P m → ((a : A) → Sound P (f a)) → Sound P (m >>= f)
    unfolding ◌>>=◌
    Sound-bind m f h k = record {
      typed = λ tr t. continue-typed (m tr).0 f (m tr).1 k (h.typed tr t);
      returns = λ law tr.
          continue-ne-stuck (m tr).0 f (m tr).1 (λ a. (k a).returns law (m tr).1)
            (h.returns law tr);
    }

  pub Sound-act : (e : Event) (answer : Trace → Option Error) → IsTyped e → Sound P (act e answer)
  unfolding act
  Sound-act e answer h = record {
    typed = λ tr t. (h, t);
    returns = λ law tr. refusal-ne-stuck (answer tr);
  }

  pub Sound-log : (l : LogLine) → Sound P (log l)
  unfolding log
  Sound-log l = record { typed = λ tr t. (tt, t); returns = λ law tr. ok-ne-stuck tt }

  pub Sound-close : (r : Resource) → Sound P (close r)
  unfolding close
  Sound-close r = record { typed = λ tr t. (tt, t); returns = λ law tr. ok-ne-stuck tt }

  pub Sound-acquire : (r : Resource) (answer : Trace → Option Error) → Sound P (acquire r answer)
  unfolding acquire
  Sound-acquire r answer = record {
    typed = λ tr t. granted_typed (answer tr) tr t;
    returns = λ law tr. granted-ne-stuck (answer tr) tr;
  }
    where
      granted_typed : (o : Option Error) (tr : Trace) → AllTyped tr → AllTyped (granted r o tr).1
      granted_typed none tr t = (tt, t)
      granted_typed (some e) tr t = t

      granted-ne-stuck : (o : Option Error) (tr : Trace) → (granted r o tr).0 ≢ stuck
      granted-ne-stuck none tr = ok-ne-stuck tt
      granted-ne-stuck (some e) tr = err-ne-stuck e

pub Sound-weaken : {P Q : Type 0} {A : Type 0} {m : Io A} → (Q → P) → Sound P m → Sound Q m
Sound-weaken f h = record { typed = h.typed; returns = λ q. h.returns (f q) }

-- What follows an attempt gets a value or an error, if the attempt ends.
pub Sound-attempt :
    {P : Type 0} {A : Type 0} {B : Type 0} (m : Io A) (f : Result A → Io B)
    → Sound P m
    → ((r : Result A) → Sound (P × (r ≢ stuck)) (f r))
    → Sound P (attempt m >>= f)
unfolding ◌>>=◌ attempt
Sound-attempt m f h k = record {
  typed = λ tr t. (k (m tr).0).typed (m tr).1 (h.typed tr t);
  returns = λ p tr. (k (m tr).0).returns (p, h.returns p tr) (m tr).1;
}
