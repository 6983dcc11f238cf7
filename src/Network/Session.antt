-- ===== src/Network/Session.antt =====
-- Requests that the service is asked for one after the other: its replies, and what it logs.
use eth_proxy.Prelude.{
  ℕ, ◌≡◌, ◌∙◌, ◌⊎◌, inl, inr, ap, sym, refl, String, List, [], ◌∷◌, ◌++◌, append-nil, append_assoc,
  map, Option, none, some, Run, pure, ◌>>=◌, >>=-eq-some, ◌==◌, All, Bool-cases, arith,
}
use eth_proxy.Prelude.Int.{ℤ}
use eth_proxy.Ethereum.{Ethereum, SimpleEthClient}
use eth_proxy.Http.{Conn}
use eth_proxy.Http.Delivery.{Reply}
use eth_proxy.Http.Logging.{Access, Line, Request, access_given, line_of}
use eth_proxy.Api.Answers.{Endpoint, answer}
use eth_proxy.Service.{Registration}
use eth_proxy.Service.Routes.{params_of}
use eth_proxy.Network.Router.{Documented}
use eth_proxy.Network.Serving.{Running, Response, Served, serve_http}
use eth_proxy.Network.Asked.{Fits}
use eth_proxy.Network.Calls.{
  registered, request_for, place_of, entry_given, lines_given, after_reply, response_to,
  serve_http-answer,
}

joined :
    {A : Type 0} (xs given ls : List A) (line : A)
    → given ≡ line ∷ []
    → (xs ++ given) ++ ls ≡ xs ++ line ∷ ls
joined xs given ls line e = rw e (append_assoc xs (line ∷ []) ls)

-- An endpoint, and the last segment of the path.
abbrev pub Asked : Type 0
Asked = Endpoint × String

module _ {Entry S : Type 0} (sv : Served Entry S) (regs : List (Registration Entry Conn S)) where
  unfoldable pub serve_all :
      List Request → Running Entry S → Option (List Response × Running Entry S)
  unfolding serve_http
  serve_all [] n = some ([], n)
  serve_all (req ∷ reqs) n = elim (serve_http sv regs req n) [
    | none ↦ none
    | some (r, m) ↦ elim (serve_all reqs m) [ none ↦ none | some (rs, k) ↦ some (r ∷ rs, k) ]
  ]

  serve_all-first :
      (req : Request) (reqs : List Request) (n m k : Running Entry S) (r : Response)
      (rs : List Response)
      → serve_http sv regs req n ≡ some (r, m)
      → serve_all reqs m ≡ some (rs, k)
      → serve_all (req ∷ reqs) n ≡ some (r ∷ rs, k)
  unfolding serve_all
  serve_all-first req reqs n m k r rs first later = ground (arith, first, later)

module _ {E : Ethereum} {S : Type 0} (client : SimpleEthClient E S) (version : String) where
  -- The handlers alone: each answers in the state that the one before has left.
  unfoldable pub answer_all : List Asked → Run S (List Reply)
  unfolding answer
  answer_all [] = pure []
  answer_all ((e, v) ∷ qs) =
      answer client version e (params_of e v) >>= λ a. answer_all qs >>= λ bs. pure (a ∷ bs)

  answer_all-first :
      (e : Endpoint) (v : String) (qs : List Asked) (s t : S) (bs : List Reply)
      → answer_all ((e, v) ∷ qs) s ≡ some (bs, t)
      → (a : Reply) × (cs : List Reply) × (u : S) × (answer client version e (params_of e v) s
          ≡ some (a, u))
        × (answer_all qs u ≡ some (cs, t))
        × (bs ≡ a ∷ cs)
  unfolding answer_all
  answer_all-first e v qs s t bs h =
      let (a, u, given, rest) =
        >>=-eq-some (answer client version e (params_of e v))
          (λ a. answer_all qs >>= λ bs. pure (a ∷ bs)) s h in
      let (cs, w, later, ends) = >>=-eq-some (answer_all qs) (λ bs. pure (a ∷ bs)) u rest in
      let world : w ≡ t = ground arith in
      (a, cs, u, given, later ∙ ap (λ x. some (cs, x)) world, ground arith)

module _ {Entry : Type 0} (with_fields : Access → Entry → Entry) (base : Entry) where
  -- Fields that are given again replace those that were there.
  abbrev pub Replaces : Type 0
  Replaces = (a b : Access) (e : Entry) → with_fields a (with_fields b e) ≡ with_fields a e

  abbrev pub IsBased : Option Entry → Type 0
  IsBased e = (e ≡ some base) ⊎ ((b : Access) × (e ≡ some (with_fields b base)))

  abbrev pub AllBased : {S : Type 0} → Running Entry S → Type 0
  AllBased n = (i : ℕ) → IsBased (n.entry_at i)

  -- A line says of a request, and of the reply to it, what it should, and nothing of another.
  abbrev pub Says : Asked → Reply → Line Entry → Type 0
  Says (e, v) a line =
      (elapsed : ℕ) × (line
        ≡ line_of with_fields (access_given with_fields (request_for e v) elapsed a).http_code
            (with_fields (access_given with_fields (request_for e v) elapsed a) base))

  abbrev pub Told : List Asked → List Reply → List (Line Entry) → Type 0
  Told [] [] [] = Unit
  Told (q ∷ qs) (a ∷ bs) (l ∷ ls) = Says q a l × Told qs bs ls
  Told _ _ _ = ⊥

  entry_given-based :
      (e : Option Entry) (a : Access)
      → Replaces
      → IsBased e
      → entry_given with_fields e a ≡ some (with_fields a base)
  entry_given-based e a replaces (inl h) = rw h refl
  entry_given-based e a replaces (inr (b, h)) = rw h (ap some (replaces a b base))

  lines_given-based :
      (e : Option Entry) (a : Access)
      → Replaces
      → IsBased e
      → lines_given with_fields e a ≡ line_of with_fields a.http_code (with_fields a base) ∷ []
  lines_given-based e a replaces (inl h) = rw h refl
  lines_given-based e a replaces (inr (b, h)) = rw h (rw (replaces a b base) refl)

module _ {Entry S : Type 0} {E : Ethereum} (with_fields : Access → Entry → Entry) (base : Entry)
    (client : SimpleEthClient E S) (version : String) (port : ℤ) (l : Option Entry)
    (sv : Served Entry S) where
  after_reply-AllBased :
      (elapsed : ℕ) (e : Endpoint) (v : String) (a : Reply) (t : S) (n : Running Entry S)
      → Replaces with_fields base
      → AllBased with_fields base n
      → AllBased with_fields base (after_reply with_fields elapsed e v a t n)
  after_reply-AllBased elapsed e v a t n replaces based j = elim (Bool-cases (j == place_of e)) [
    | inl here ↦ rw here (
        inr (
          access_given with_fields (request_for e v) elapsed a,
          entry_given-based with_fields base _ _ replaces (based (place_of e)),
        ))
    | inr there ↦ rw there (based j)
  ]

  -- If the client of the nodes answers, every request for an endpoint gets the reply of its handler, in
  -- the order in which they were sent; and if fields that are given again replace those that were
  -- there, the logger is called once for each, with the method, path, status and document of that
  -- request alone, though the handles keep the fields of the requests before.
  pub serve_all-answer_all :
      (qs : List Asked) (n : Running Entry S) (rs : List Reply) (t : S)
      → Documented sv.lookup
      → Replaces with_fields base
      → AllBased with_fields base n
      → All (λ q. Fits q.0 q.1) qs
      → answer_all client version qs n.world ≡ some (rs, t)
      → (m : Running Entry S) × (ls : List (Line Entry)) × (serve_all sv
            (registered with_fields client version port l)
            (map (λ q. request_for q.0 q.1) qs)
            n
          ≡ some (map response_to rs, m))
        × (m.world ≡ t)
        × (m.lines ≡ n.lines ++ ls)
        × Told with_fields base qs rs ls
        × AllBased with_fields base m
  unfolding serve_all answer_all
  serve_all-answer_all [] n rs t documented replaces based fits given =
      let none_left : rs ≡ [] = ground arith in
      let world : n.world ≡ t = ground arith in
      rw none_left (n, [], refl, world, sym (append-nil n.lines), tt, based)
  serve_all-answer_all ((e, v) ∷ qs) n rs t documented replaces based (fit, fits) given =
      let (a, cs, u, first, later, same) =
        answer_all-first client version e v qs n.world t rs given in
      let elapsed = sv.elapsed (request_for e v) n in
      let acc = access_given with_fields (request_for e v) elapsed a in
      let line = line_of with_fields acc.http_code (with_fields acc base) in
      let m = after_reply with_fields elapsed e v a u n in
      let (k, ls, served, world, logged, told, still_based) =
        serve_all-answer_all qs m cs t documented replaces
          (after_reply-AllBased elapsed e v a u n replaces based) fits later in
      rw same (
        k,
        line ∷ ls,
        serve_all-first sv (registered with_fields client version port l) (request_for e v)
            (map (λ q. request_for q.0 q.1) qs) n m k (response_to a) (map response_to cs)
            (serve_http-answer with_fields client version port l sv documented e v n a u fit first)
            served,
        world,
        logged
            ∙ joined n.lines _ ls line
                (lines_given-based with_fields base _ acc replaces (based (place_of e))),
        ((elapsed, refl), told),
        still_based,
      )
