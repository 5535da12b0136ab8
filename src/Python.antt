-- ===== src/Python.antt =====
-- The part of Python that the programs share: exceptions, JSON values, the calls that leave the
-- process, and actions that keep a trace of those calls.
pub mod Actions
pub mod Floats
pub mod Sort
pub mod Linear
pub mod Loops
pub mod Counts
pub mod Processes
pub mod Texts
pub mod Files
pub mod Running
use sndv_kv.Prelude.{ℕ, zero, suc, ℤ, pos, Text, Bool, true, false, List, [], ◌∷◌, Option}

-- A value that `json.loads` returns, and that `json.dumps` takes; `null` is Python's `None`.
-- A number is its decimal mantissa and exponent.
mutual
  pub data Json : Type 0 where
    null : Json
    boolean : Bool → Json
    number : ℤ → ℤ → Json
    string : Text → Json
    array : Items → Json
    object : Fields → Json

  pub data Items : Type 0 where
    nil : Items
    cons : Json → Items → Items

  pub data Fields : Type 0 where
    end : Fields
    field : Text → Json → Fields → Fields

-- An `int` of Python as JSON.
abbrev pub int : ℤ → Json
int z = number z (pos 0)

-- A list of Python as JSON.
unfoldable pub items_of : List Json → Items
items_of [] = nil
items_of (j ∷ js) = cons j (items_of js)

-- An HTTP request. The body stands for its JSON text: `json.dumps` is not modelled.
pub record Request : Type 0 where
  pub method : Text
  pub url : Text
  pub headers : List (Text × Text)
  pub body : Option Json

-- What comes back over the network, redirects followed: a status, its reason and a body, or no
-- answer at all (refused, timed out), with a reason.
pub data Wire : Type 0 where
  answered : ℕ → Text → Text → Wire
  unreachable : Text → Wire

-- What `urlopen` of `urllib.request`, with the read of the body, comes to: an answer or a
-- `URLError`; a connection that is lost while the answer is awaited or read, whose exception is no
-- `URLError`; or a request that is refused before it is sent, for its URL or its headers.
pub data Reply : Type 0 where
  arrived : Wire → Reply
  cut_off not_sent : Text → Reply

-- The exceptions that the programs raise or handle.
pub data Exn : Type 0 where
  sndv_error : ℕ → Text → Exn
  http_error : ℕ → Text → Exn
  url_error : Text → Exn
  request_exception : Text → Exn
  connection_lost invalid_request : Text → Exn
  called_process_error decode_error attribute_error index_error zero_division_error value_error :
      Exn
  os_error timeout_expired : Exn
  system_exit : ℕ → Exn

pub data Result {ℓ} (A : Type ℓ) : Type ℓ where
  ok : A → Result A
  raise : Exn → Result A

-- What a program that was run to its end comes to: its exit code and its output, or it could not be run, or its
-- timeout ended it.
pub data Ran : Type 0 where
  exited : ℕ → Text → Ran
  not_run timed_out : Ran

-- A call that left the process, with its answer. `wrote_json` is a file that holds one JSON value,
-- and `wrote_file` one of which only the name is kept. `spawned` is a process that was started,
-- `terminated` and `killed` are the signals that it was sent, and `waited` says whether it has ended
-- when a wait for it is over.
pub data Event : Type 0 where
  exchange : Request → Wire → Event
  read_clock : Event
  slept : Event
  wrote_file made_directory : Text → Event
  wrote_json : Text → Json → Event
  ran : List Text → Ran → Event
  spawned : List Text → Event
  terminated killed : Event
  waited : Bool → Event

-- The calls made so far, the latest first.
abbrev pub Trace : Type 0
Trace = List Event

-- An entry below a directory, as `rglob` finds it: its name, whether it stands in the directory
-- itself, whether it is a file, and its size.
pub record Item : Type 0 where
  pub name : Text
  pub at_top : Bool
  pub is_file : Bool
  pub size : ℕ

-- What the process runs against: the network (`http` as `requests` reaches it, and
-- `urlopen` as `urllib` does), the clock, other programs (`run` to their end, and
-- whether one can be started, and whether one that got a signal ends within the wait) and the files
-- (`allows` says whether a path can be written, `found` what is below a directory). An answer may
-- depend on all that happened before. `Float` is the type of Python's floats. `loads` is `json.loads`
-- and `parse` is `float` of a text, with `none` where they raise.
pub record Host (Float : Type 0) : Type 0 where
  pub http : Trace → Request → Wire
  pub urlopen : Trace → Request → Reply
  pub clock : Trace → Float
  pub run : Trace → List Text → Ran
  pub starts : Trace → List Text → Bool
  pub stops : Trace → Bool
  pub allows : Trace → Text → Bool
  pub found : Trace → Text → List Item
  pub loads : Text → Option Json
  pub parse : Text → Option Float
