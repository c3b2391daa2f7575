-- ===== src/Drivers/Tests.antt =====
-- The drivers at concrete statements: the query "a?" with the integer 5.
use my_sqltutorials.Prelude.{
  ℕ, ◌≡◌, ◌≢◌, ◌==◌, ◌↔◌, ◌+◌, ◌*◌, ◌<◌, ◌≤◌, refl, arith, Bool, true, false, Option, some, none,
  List, [], ◌∷◌, ◌++◌, inl, Chars, length,
}
use my_sqltutorials.Prelude.Int.{ℤ, pos, negsuc}
use my_sqltutorials.Db.{DbError}
use my_sqltutorials.Drivers.Values.{Bind, BindType, value_text, print_nat, db_print_value}
use my_sqltutorials.Drivers.Expand.{Buffer, Outcome, expand, substitute, empty_buffer}
use my_sqltutorials.Drivers.Expand.Fills.{expand_lem}
use my_sqltutorials.Drivers.Postgres
use my_sqltutorials.Drivers.Postgres.{
  Answer, accepted, Call, returns, parameter_name, count_marks, types_of, get_pgsql_bind_type,
  pgsql_drv_query, pgsql_drv_bind_param, pgsql_drv_execute,
}
use my_sqltutorials.Drivers.Mysql
use my_sqltutorials.Drivers.Mysql.{
  Hosts, Target, host, choose_target, mysql_drv_init, mysql_drv_query,
}
use my_sqltutorials.Drivers.Mysql.RoundRobin.{connects, targets-in_turn}
use my_sqltutorials.Drivers.Mysql.Errors.{EndsAt, verdict, query-verdict}

abbrev number : ℤ → Option Bool → Bind
number n flag = record {
  type = BindType.int;
  is_null = flag;
  integer = n;
  real = [];
  string = [];
  time_value = record { year = 0; month = 0; day = 0; hour = 0; minute = 0; second = 0 };
}

-- "-120"
printed : value_text (number (negsuc 119) none) ≡ 45 ∷ 49 ∷ 50 ∷ 48 ∷ []
unfolding value_text
printed = refl

-- "NULL" needs five bytes.
print_null : db_print_value (number (pos 1) (some true)) 4 ≡ none
unfolding db_print_value
print_null = refl

abbrev one_mark : Chars
one_mark = 97 ∷ 63 ∷ []

abbrev five : List Bind
five = number (pos 5) none ∷ []

abbrev flagged_five : List Bind
flagged_five = number (pos 5) (some false) ∷ []

abbrev with_five : Chars
with_five = 97 ∷ 53 ∷ []

-- "a$1"
abbrev named : Chars
named = 97 ∷ 36 ∷ 49 ∷ []

-- A query with no characters is written behind the buffer that is not there.
empty_query : expand (λ k. true) (λ k. none) 0 [] empty_buffer ≡ Outcome.overrun
unfolding expand
empty_query = refl

five_text : substitute (Postgres.Sends.texts_of five) 0 one_mark ≡ some with_five
unfolding substitute value_text
five_text = refl

named_text : substitute parameter_name 1 one_mark ≡ some named
unfolding substitute print_nat
named_text = refl

one_mark-ne : one_mark ≢ []
one_mark-ne = λ e. cc

expand_lem_example :
    (r : Buffer) × (expand (λ k. true) (Postgres.Sends.texts_of five) 0 one_mark empty_buffer
      ≡ Outcome.done r)
    × (r.text ≡ with_five)
    × (length with_five < r.buflen)
    × (r.buflen ≤ 2 * length with_five + 256)
expand_lem_example =
    expand_lem (Postgres.Sends.texts_of five) (λ k. true) 0 one_mark with_five one_mark-ne five_text
      (omega arith) (λ k h. refl)

five_runs :
    expand (λ k. true) (Postgres.Sends.texts_of five) 0 one_mark empty_buffer
    ≡ Outcome.done (record { text = with_five; buflen = 256; need_realloc = false })
unfolding expand value_text
five_runs = refl

abbrev server : Postgres.Server
server = record { answer = λ sent c. accepted; realloc = λ k. true }

abbrev stmt : Postgres.Stmt
stmt = record {
  con = true;
  query_text = [];
  emulated = false;
  bound_param = [];
  ptr = none;
  sent = [];
}

session-query_example :
    Postgres.Sends.outcome
      (Postgres.Sends.session server false [] one_mark five (Postgres.Sends.connected stmt))
    ≡ (let (e, s') = pgsql_drv_query server with_five stmt in some (e, s'.sent))
session-query_example =
    Postgres.Sends.session-query server [] one_mark with_five five stmt one_mark-ne five_text
      (omega arith) (λ k h. refl)

one_count : count_marks one_mark ≡ length five
unfolding count_marks
one_count = refl

abbrev first_sent : List Postgres.Command
first_sent = Postgres.Command.prepares [] named (types_of five) ∷ []

abbrev second : List (Option Chars) → Postgres.Command
second values = Postgres.Command.executes [] values

session-prepared_example :
    Postgres.Sends.outcome
      (Postgres.Sends.session server true [] one_mark five (Postgres.Sends.connected stmt))
    ≡ some (DbError.none, first_sent ++ second (Postgres.Sends.first_values five) ∷ [])
session-prepared_example =
    Postgres.Sends.session-prepared server [] one_mark named five stmt one_count (omega arith)
      named_text (omega arith) (λ k h. refl) refl

session-unset_example :
    Postgres.Sends.outcome
      (Postgres.Sends.session server true [] one_mark flagged_five (Postgres.Sends.connected stmt))
    ≡ some (DbError.none, first_sent ++ second (none ∷ []) ∷ [])
session-unset_example =
    Postgres.Params.session-unset server [] one_mark named flagged_five stmt ((λ e. cc), tt)
      one_count (omega arith) named_text (omega arith) (λ k h. refl) refl

abbrev prepared : Postgres.PgStmt
prepared = record { name = []; prepared = true; nparams = 1; ptypes = []; pvalues = none ∷ [] }

rebind-faults_example :
    (t : Postgres.Stmt) × (pgsql_drv_bind_param server []
        (record stmt { con = true; emulated = false; ptr = some prepared })
      ≡ returns false t)
    × (t.sent ≡ [])
    × ((Postgres.Sends.outcome (pgsql_drv_execute server t) ≡ none) ↔ (0 < 1))
rebind-faults_example = Postgres.Params.rebind-faults server [] stmt prepared refl (omega arith)

abbrev two_hosts : List Chars
two_hosts = (97 ∷ []) ∷ (98 ∷ []) ∷ []

abbrev hosts_at_start : Hosts
hosts_at_start = record { hosts = two_hosts; sockets = []; hosts_pos = 0; sockets_pos = 0 }

init_two : mysql_drv_init two_hosts [] ≡ some hosts_at_start
unfolding mysql_drv_init
init_two = refl

-- The fourth connection goes to the second host.
targets-in_turn_example :
    (choose_target (connects (λ t. true) 3 hosts_at_start)).0 ≡ host (some (98 ∷ []))
targets-in_turn_example = targets-in_turn (λ t. true) two_hosts [] hosts_at_start 3 init_two

abbrev is_first : ℕ → Bool
is_first n = n == 0

-- The server answers 2013, a lost connection, and the second attempt to connect succeeds.
abbrev client : Mysql.Client
client = record {
  answer = λ sent c. 2013;
  fails = λ n. is_first n;
  stopped = λ n. false;
  is_lost = λ e. true;
  unsupported_ps = 1295;
  realloc = λ k. true;
}

abbrev emulating : Mysql.Options
emulating = record { dry_run = false; use_ps = false; ignored_errors = Mysql.word_all ∷ [] }

client-EndsAt : EndsAt client 1
client-EndsAt = record { waits = λ i h. (ground arith, refl); ends = inl refl }

query-verdict_example :
    mysql_drv_query 2 client emulating with_five []
    ≡ (some (verdict client 1 (Mysql.word_all ∷ []) 2013), Mysql.queries with_five ∷ [])
query-verdict_example =
    query-verdict client 1 2 emulating with_five [] client-EndsAt (omega arith) refl

session-emulated_example :
    Mysql.Sends.session 2 client emulating true 0 1 false one_mark five []
    ≡ some (Mysql.ends (mysql_drv_query 2 client emulating with_five []))
session-emulated_example =
    Mysql.Sends.session-emulated 2 client emulating refl true false 0 1 one_mark with_five five []
      (inl refl) one_mark-ne five_text (omega arith) (λ k h. refl)
