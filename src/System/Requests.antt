-- ===== src/System/Requests.antt =====
-- All the requests of a connected programmer against the device, with writes: the specification has
-- the memory and the address that the last request left in the header.
use programmer.Prelude.{
  ℕ, ◌+◌, ◌%◌, ◌≤◌, ◌<◌, ◌≡◌, ◌⊎◌, false, ◌&&◌, ltb, ◌==◌, List, [], ◌∷◌, length, get_or,
}
use programmer.Exceptions.{Result, ok, throws}
use programmer.Network.{Address}
use programmer.Protocol.Header
use programmer.Protocol.Status
use programmer.NetworkProgrammer
use programmer.NetworkProgrammer.{NetworkProgrammer, Action, ◌>>◌, give}
use programmer.NetworkProgrammer.Process.{e_target}
use programmer.Target.{Target}
use programmer.System.{Command, perform, named, call, IsValid, Session}
use programmer.System.Linked.{IsLinked}

pub data Request : Type 0 where
  command : Command → Request
  write : ℕ → List ℕ → Request

-- The method of a request.
unfoldable pub act : Request → Action (List ℕ)
act (command c) = call c
act (write address buffer) = NetworkProgrammer.write address buffer >> give (ok [])

-- A write has the 64 bytes that the programmer copies.
abbrev pub IsServed : Request → Type 0
IsServed (command c) = IsValid c
IsServed (write address buffer) = 64 ≤ length buffer

pub record Store : Type 0 where
  pub memory : List ℕ
  pub place : ℕ

-- A write stores its bytes from the third on at the place that the last request has left; what the
-- last two cells of the sector then hold is left open.
pub record Stored (buffer : List ℕ) (s s' : Store) : Type 0 where
  pub size : length s'.memory ≡ length s.memory
  pub shifted : (i : ℕ) → i < 62 → get_or s'.memory (s.place + i) 0 ≡ get_or buffer (2 + i) 0
  pub others :
      (i : ℕ) → (i < s.place) ⊎ (s.place + 64 ≤ i) → get_or s'.memory i 0 ≡ get_or s.memory i 0
  pub place : s'.place ≡ s.place

-- What a request does: its result, and the store after it.
pub data Acts : Request → Store → Result (List ℕ) → Store → Type 0 where
  commanded :
      {s s' : Store} {r : Result (List ℕ)} (c : Command)
      → r ≡ (perform c s.memory).1
      → s'.memory ≡ (perform c s.memory).0
      → s'.place ≡ named c
      → Acts (command c) s r s'
  written :
      {s s' : Store} (address : ℕ) (buffer : List ℕ)
      → s.place % 64 ≡ 0
      → s.place < length s.memory
      → Stored buffer s s'
      → Acts (write address buffer) s (ok []) s'
  misplaced :
      {s s' : Store} (address : ℕ) (buffer : List ℕ)
      → ((s.place % 64 == 0) && ltb s.place (length s.memory)) ≡ false
      → s'.memory ≡ s.memory
      → s'.place ≡ s.place
      → Acts (write address buffer) s (throws (e_target Status.inv_param)) s'

-- Requests in a row.
pub data Run : Store → List Request → List (Result (List ℕ)) → Store → Type 0 where
  stopped : {s : Store} → Run s [] [] s
  acted :
      {s u s' : Store} {q : Request} {qs : List Request} {r : Result (List ℕ)}
      {rs : List (Result (List ℕ))}
      → Acts q s r u
      → Run u qs rs s'
      → Run s (q ∷ qs) (r ∷ rs) s'

-- What the two parts hold of the store.
abbrev pub store_of : NetworkProgrammer → Target → Store
store_of p t = record { memory = t.flash; place = Header.address p.tx }

-- A session of the requests, whose results and end are those of a run.
pub record Follows (me there : Address) (p : NetworkProgrammer) (t : Target) (qs : List Request)
    : Type 0 where
  pub results : List (Result (List ℕ))
  pub after : NetworkProgrammer
  pub next : Target
  pub session : Session act me there p t qs results after next
  pub run : Run (store_of p t) qs results (store_of after next)
  pub linked : IsLinked me after next
