-- ===== src/Drivers/Mysql/RoundRobin.antt =====
-- The order in which connections go to the hosts, or to the sockets.
use my_sqltutorials.Prelude.{
  ℕ, zero, suc, ◌+◌, ◌%◌, ◌<◌, ◌≡◌, refl, ap, sym, ◌∙◌, arith, Bool, false, some, List, [], ◌∷◌,
  ◌==◌, if◌then◌else◌, Chars, length, get_elem?,
}
use my_sqltutorials.Drivers.Mysql.{
  Hosts, Target, host, socket, next_pos, choose_target, mysql_drv_init, mysql_drv_connect,
}

-- The state after connections that may succeed or fail, as the servers accept them or not.
abbrev pub connects : (accepts : Target → Bool) → ℕ → Hosts → Hosts
connects accepts zero h = h
connects accepts (suc k) h = (mysql_drv_connect false accepts (connects accepts k h)).2

connect-state :
    (accepts : Target → Bool) (h : Hosts)
    → (mysql_drv_connect false accepts h).2 ≡ (choose_target h).1
unfolding mysql_drv_connect
connect-state accepts h = ground arith

next-zero : (n : ℕ) → 0 < n → next_pos n 0 ≡ 0 % n + 1
unfolding next_pos
next-zero n h = grind arith

next-mod : (n k : ℕ) → 0 < n → next_pos n (k % n + 1) ≡ (k + 1) % n + 1
unfolding next_pos
next-mod n k h = grind arith

-- A position after k connections.
abbrev pos_at : (n k : ℕ) → ℕ
pos_at n zero = 0
pos_at n (suc k) = k % n + 1

next-pos_at : (n k : ℕ) → 0 < n → next_pos n (pos_at n k) ≡ k % n + 1
next-pos_at n zero h = next-zero n h
next-pos_at n (suc k) h = next-mod n k h ∙ ap (λ (m : ℕ). m % n + 1) (omega arith)

-- The target of the connection after k others.
abbrev pub in_turn : List Chars → List Chars → ℕ → Target
in_turn hosts sockets k =
    if length sockets == 0
    then host (get_elem? hosts (k % length hosts))
    else socket (get_elem? sockets (k % length sockets))

abbrev at_hosts : List Chars → ℕ → Hosts
at_hosts hosts k = record {
  hosts = hosts;
  sockets = [];
  hosts_pos = pos_at (length hosts) k;
  sockets_pos = 0;
}

abbrev at_sockets : List Chars → List Chars → ℕ → Hosts
at_sockets hosts sockets k = record {
  hosts = hosts;
  sockets = sockets;
  hosts_pos = 0;
  sockets_pos = pos_at (length sockets) k;
}

some_socket :
    {A : Type 0} (s : Chars) (sockets : List Chars) (x y : A)
    → (if length (s ∷ sockets) == 0 then x else y) ≡ y
some_socket s sockets x y = ground arith

abbrev pair_of : Target → Hosts → Target × Hosts
pair_of t h = (t, h)

choose-at_hosts :
    (hosts : List Chars) (k : ℕ)
    → 0 < length hosts
    → choose_target (at_hosts hosts k)
      ≡ (host (get_elem? hosts (k % length hosts)), at_hosts hosts (suc k))
unfolding choose_target
choose-at_hosts hosts k h =
    rw (next-pos_at (length hosts) k h)
      (ap (λ (m : ℕ). pair_of (host (get_elem? hosts m)) (at_hosts hosts (suc k))) (omega arith))

choose-at_sockets :
    (hosts : List Chars) (s : Chars) (sockets : List Chars) (k : ℕ)
    → choose_target (at_sockets hosts (s ∷ sockets) k) ≡ (
      socket (get_elem? (s ∷ sockets) (k % length (s ∷ sockets))),
      at_sockets hosts (s ∷ sockets) (suc k),
    )
unfolding choose_target
choose-at_sockets hosts s sockets k = rw (next-pos_at (length (s ∷ sockets)) k (omega arith)) (
    some_socket s sockets _ _
    ∙ ap
        (λ (m : ℕ).
          pair_of (socket (get_elem? (s ∷ sockets) m)) (at_sockets hosts (s ∷ sockets) (suc k)))
        (omega arith))

module _ (accepts : Target → Bool) where
  step : (h : Hosts) → Hosts
  step h = (mysql_drv_connect false accepts h).2

  connects-hosts :
      (h : Chars) (hosts : List Chars) (k : ℕ)
      → connects accepts k (at_hosts (h ∷ hosts) 0) ≡ at_hosts (h ∷ hosts) k
  unfolding step
  connects-hosts h hosts zero = refl
  connects-hosts h hosts (suc k) =
      ap step (connects-hosts h hosts k)
      ∙ connect-state accepts (at_hosts (h ∷ hosts) k)
      ∙ ap (λ r. r.1) (choose-at_hosts (h ∷ hosts) k (omega arith))

  connects-sockets :
      (hosts : List Chars) (s : Chars) (sockets : List Chars) (k : ℕ)
      → connects accepts k (at_sockets hosts (s ∷ sockets) 0) ≡ at_sockets hosts (s ∷ sockets) k
  unfolding step
  connects-sockets hosts s sockets zero = refl
  connects-sockets hosts s sockets (suc k) =
      ap step (connects-sockets hosts s sockets k)
      ∙ connect-state accepts (at_sockets hosts (s ∷ sockets) k)
      ∙ ap (λ r. r.1) (choose-at_sockets hosts s sockets k)

-- Whichever connections succeed before, the connections go to the hosts in turn, from the first on,
-- or to the sockets where there are some.
pub targets-in_turn :
    (accepts : Target → Bool) (hosts sockets : List Chars) (start : Hosts) (k : ℕ)
    → mysql_drv_init hosts sockets ≡ some start
    → (choose_target (connects accepts k start)).0 ≡ in_turn hosts sockets k
unfolding mysql_drv_init
targets-in_turn accepts [] sockets start k e = cc
targets-in_turn accepts (h ∷ hosts) [] start k e =
    let first : at_hosts (h ∷ hosts) 0 ≡ start = cc in
    ap (λ x. (choose_target (connects accepts k x)).0) (sym first)
    ∙ ap (λ x. (choose_target x).0) (connects-hosts accepts h hosts k)
    ∙ ap (λ r. r.0) (choose-at_hosts (h ∷ hosts) k (omega arith))
targets-in_turn accepts (h ∷ hosts) (s ∷ sockets) start k e =
    let first : at_sockets (h ∷ hosts) (s ∷ sockets) 0 ≡ start = cc in
    ap (λ x. (choose_target (connects accepts k x)).0) (sym first)
    ∙ ap (λ x. (choose_target x).0) (connects-sockets accepts (h ∷ hosts) s sockets k)
    ∙ ap (λ r. r.0) (choose-at_sockets (h ∷ hosts) s sockets k)
    ∙ sym (some_socket s sockets _ _)
