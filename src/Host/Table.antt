-- ===== src/Host/Table.antt =====
-- What is in a table after the events of a trace: its rows, in the order in which they were appended.
use tilt_common.Base.{
  ◌≡◌, refl, sym, ap, ◌∙◌, Option, none, some, List, [], ◌∷◌, ◌++◌, append-nil, append_assoc, Bytes,
  same, if◌then◌else◌,
}
use tilt_common.Effect.Keeps.{Keeps}
use tilt_common.Effect.Outcomes.{bind-eq-ok, bind-step, wrapped-eq-ok}
use tilt_common.Errors.{Error, Step, ok}
use tilt_common.Host.{
  Cell, Resource, Event, sent, opened, closed, appended, flushed, executed, made_dir, queried,
  created_file, wrote_file, logged, LogLine, Trace,
}
use tilt_common.Host.Io.{Io, ◌>>=◌, wrapped, deferring, act, acquire, close, log, granted}

-- The rows that one event adds to a table.
abbrev pub rows_of_event : Bytes → Event → List (List Cell)
rows_of_event table (appended t row) = if same t table then row ∷ [] else []
rows_of_event table (sent client request) = []
rows_of_event table (opened r) = []
rows_of_event table (closed r) = []
rows_of_event table (flushed t) = []
rows_of_event table (executed sql) = []
rows_of_event table (made_dir path) = []
rows_of_event table (queried call) = []
rows_of_event table (created_file path) = []
rows_of_event table (wrote_file path content) = []
rows_of_event table (logged line) = []

unfoldable pub rows_in : Bytes → Trace → List (List Cell)
rows_in table [] = []
rows_in table (e ∷ tr) = rows_in table tr ++ rows_of_event table e

-- An effect that, when it returns a value, has added these rows to the table.
abbrev pub Adds {ℓ} : {A : Type ℓ} → Bytes → List (List Cell) → Io A → Type ℓ
Adds {A} table rows m =
    (tr : Trace) (a : A) → (m tr).0 ≡ ok a → rows_in table (m tr).1 ≡ rows_in table tr ++ rows

module _ (table : Bytes) where
  pub Adds-bind {ℓ κ} :
      {A : Type ℓ} {B : Type κ} (rows rows' : List (List Cell)) (m : Io A) (f : A → Io B)
      → Adds table rows m
      → ((a : A) → Adds table rows' (f a))
      → Adds table (rows ++ rows') (m >>= f)
  Adds-bind rows rows' m f h k tr b e =
      let (a, p, q) = bind-eq-ok m f tr e in
      ap (λ x. rows_in table x.1) (bind-step m f tr p)
      ∙ k a (m tr).1 b q
      ∙ ap (λ r. r ++ rows') (h tr a p)
      ∙ append_assoc (rows_in table tr) rows rows'

  pub Adds-Keeps {ℓ} : {A : Type ℓ} (m : Io A) → Keeps (rows_in table) m → Adds table [] m
  Adds-Keeps m h tr a e = h tr ∙ sym (append-nil (rows_in table tr))

  pub Adds-wrapped {ℓ} :
      {A : Type ℓ} (rows : List (List Cell)) (s : Step) (m : Io A)
      → Adds table rows m
      → Adds table rows (wrapped s m)
  unfolding wrapped
  Adds-wrapped rows s m h tr a e = h tr a (wrapped-eq-ok s m tr e)

  pub Adds-deferring {ℓ} :
      {A : Type ℓ} (rows : List (List Cell)) (r : Resource) (m : Io A)
      → Adds table rows m
      → Adds table rows (deferring r m)
  unfolding deferring rows_in
  Adds-deferring rows r m h tr a e = append-nil (rows_in table (m tr).1) ∙ h tr a e

  pub Keeps-act :
      (e : Event) (answer : Trace → Option Error)
      → rows_of_event table e ≡ []
      → Keeps (rows_in table) (act e answer)
  unfolding act rows_in
  Keeps-act e answer h tr = ap (λ r. rows_in table tr ++ r) h ∙ append-nil (rows_in table tr)

  pub Keeps-log : (l : LogLine) → Keeps (rows_in table) (log l)
  unfolding log rows_in
  Keeps-log l tr = append-nil (rows_in table tr)

  pub Keeps-close : (r : Resource) → Keeps (rows_in table) (close r)
  unfolding close rows_in
  Keeps-close r tr = append-nil (rows_in table tr)

  pub Keeps-acquire :
      (r : Resource) (answer : Trace → Option Error) → Keeps (rows_in table) (acquire r answer)
  unfolding acquire rows_in
  Keeps-acquire r answer tr = by_answer (answer tr)
    where
      by_answer : (o : Option Error) → rows_in table (granted r o tr).1 ≡ rows_in table tr
      by_answer none = append-nil (rows_in table tr)
      by_answer (some e) = refl

  pub Keeps-deferring {ℓ} :
      {A : Type ℓ} (r : Resource) (m : Io A)
      → Keeps (rows_in table) m
      → Keeps (rows_in table) (deferring r m)
  unfolding deferring rows_in
  Keeps-deferring r m h tr = append-nil (rows_in table (m tr).1) ∙ h tr
