-- ===== src/Provider/Node.antt =====
-- providers/local/barista_local_provider/node: what the provider asks of a node (client.py), the
-- in-memory node (fake.py), and the profiles that a node supports (capabilities.py).
use Prim.Native.Char.{code}
use barista_apps.Prelude.{
  ℕ, String, Bool, true, false, ◌&&◌, ◌||◌, Option, none, some, List, [], ◌∷◌, ◌++◌, ◌==◌,
  text_equality, number_equality, if◌then◌else◌, contains, leb,
}
use barista_apps.Prelude.Dict.{Dict, find, discard, assign}
use barista_apps.Prelude.Result.{Result, ok, err}
use barista_apps.Provider.Rows.{InstanceRequest}

pub record NodeCapabilities : Type 0 where
  pub pause_resume : Bool
  pub memory_snapshot : Bool
  pub disk_snapshot : Bool
  pub cow_fork : Bool
  pub guest_agent : Bool

pub record NodeInstance : Type 0 where
  pub instance_id : String
  pub state : String
  pub ready : Bool

pub record ExecResult : Type 0 where
  pub exit_code : ℕ
  pub stdout : List ℕ
  pub stderr : List ℕ

pub data NodeFault : Type 0 where
  unsupported not_found failed : NodeFault

-- A node over states `N`: a call answers or raises, and may change the state in both cases.
pub record NodeClient (N : Type 0) : Type 0 where
  pub node_info : N → NodeCapabilities
  pub create_and_start : InstanceRequest → N → Result NodeFault NodeInstance × N
  pub lookup_instance : String → N → Result NodeFault (Option NodeInstance)
  pub destroy : String → N → Result NodeFault (Unit {0}) × N
  pub pause : String → String → N → Result NodeFault (Unit {0}) × N
  pub resume : String → String → N → Result NodeFault (Unit {0}) × N
  pub exec :
      String
      → List String
      → Dict String
      → Option String
      → Option ℕ
      → N
      → Result NodeFault ExecResult × N

unfoldable pub host_api_capabilities : NodeCapabilities → List String
host_api_capabilities c =
    (if c.pause_resume then "session.pause_resume" ∷ [] else [])
    ++ (if c.memory_snapshot then "session.snapshot.exact" ∷ [] else [])

pub record FakeRecord : Type 0 where
  pub state : String
  pub ready : Bool
  pub image : String
  pub digest : String
  pub start_cmd : List String
  pub env : Dict String
  pub workdir : Option String

abbrev pub FakeNode : Type 0
FakeNode = Dict FakeRecord

unfoldable pub fake_info : FakeNode → NodeCapabilities
fake_info n = record {
  pause_resume = true;
  memory_snapshot = false;
  disk_snapshot = true;
  cow_fork = false;
  guest_agent = true;
}

abbrev pub instance_of : String → FakeRecord → NodeInstance
instance_of id r = record { instance_id = id; state = r.state; ready = r.ready }

unfoldable pub fake_get : String → FakeNode → Option NodeInstance
fake_get id n = elim (find n id) [ none ↦ none | some r ↦ some (instance_of id r) ]

unfoldable pub fake_create_and_start :
    InstanceRequest → FakeNode → Result NodeFault NodeInstance × FakeNode
unfolding fake_get
fake_create_and_start q n = elim (fake_get q.instance_id n) [
  | some existing ↦ (ok existing, n)
  | none ↦ (
    ok (record { instance_id = q.instance_id; state = "running"; ready = true }),
    assign n q.instance_id (record {
      state = "running";
      ready = true;
      image = q.image;
      digest = q.digest;
      start_cmd = q.start_cmd;
      env = q.env;
      workdir = q.workdir;
    }),
  )
]

unfoldable pub fake_destroy : String → FakeNode → Result NodeFault (Unit {0}) × FakeNode
fake_destroy id n = (ok tt, discard n id)

-- `pause` and `resume`, which differ in the state that they write.
unfoldable pub fake_set_state :
    String → String → String → FakeNode → Result NodeFault (Unit {0}) × FakeNode
fake_set_state state id key n = elim (find n id) [
  | none ↦ (err not_found, n)
  | some r ↦ (ok tt, assign n id (record r { state = state }))
]

-- `{**base, **more}`
unfoldable pub merge : Dict String → Dict String → Dict String
merge base [] = base
merge base ((k, v) ∷ more) = merge (assign base k v) more

codes : String → List ℕ
codes String.[] = []
codes (String.◌∷◌ c s) = code c ∷ codes s

-- shlex.quote: a text of safe characters stands as it is.
is_safe : ℕ → Bool
is_safe c =
    (leb b'a' c && leb c b'z')
    || (leb b'A' c && leb c b'Z')
    || (leb b'0' c && leb c b'9')
    || contains (codes "_@%+=:,./-") c

all_safe : String → Bool
all_safe String.[] = true
all_safe (String.◌∷◌ c s) = is_safe (code c) && all_safe s

escape : String → List ℕ
escape String.[] = []
escape (String.◌∷◌ c s) =
    let rest = escape s in if code c == b'\'' then codes "'\"'\"'" ++ rest else code c ∷ rest

quote : String → List ℕ
unfolding codes is_safe all_safe escape
quote s =
    if s == "" then codes "''" else if all_safe s then codes s else b'\'' ∷ (escape s ++ b'\'' ∷ [])

-- The texts with a blank between them.
rendered : List String → List ℕ
unfolding quote
rendered [] = []
rendered (c ∷ []) = quote c
rendered (c ∷ d ∷ cs) = quote c ++ b' ' ∷ rendered (d ∷ cs)

-- `printenv NAME`, by its shape.
printed : List String → Option String
printed (command ∷ name ∷ []) = if command == "printenv" then some name else none
printed _ = none

unfoldable pub fake_exec :
    String
    → List String
    → Dict String
    → Option String
    → Option ℕ
    → FakeNode
    → Result NodeFault ExecResult × FakeNode
unfolding merge codes rendered printed
fake_exec id command env workdir timeout n = elim (find n id) [
  | none ↦ (err not_found, n)
  | some r ↦ elim (printed command) [
    | none ↦ (ok (record { exit_code = 0; stdout = rendered command ++ 10 ∷ []; stderr = [] }), n)
    | some name ↦ elim (find (merge r.env env) name) [
      | none ↦ (ok (record { exit_code = 1; stdout = []; stderr = [] }), n)
      | some value ↦
          (ok (record { exit_code = 0; stdout = codes value ++ 10 ∷ []; stderr = [] }), n)
    ]
  ]
]

abbrev pub fake_client : NodeClient FakeNode
fake_client = record {
  node_info = fake_info;
  create_and_start = fake_create_and_start;
  lookup_instance = λ id n. ok (fake_get id n);
  destroy = fake_destroy;
  pause = fake_set_state "paused";
  resume = fake_set_state "running";
  exec = fake_exec;
}
