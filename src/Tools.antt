-- ===== src/Tools.antt =====
-- credbroker/tools: the registry of tool adapters and the Drive adapter.
use credbroker.Common.{
  zero, suc, Text, Bool, true, false, Option, none, some, List, [], ◌∷◌, ◌++◌, codes, decimal, leb,
  text_eq, if◌then◌else◌,
}
use credbroker.Config.{Settings}
use credbroker.Errors.{broker, provider_call, value_error, other, unknown_tool}
use credbroker.Exec.{Result, ok, err, lift, ◌>>=◌, ◌>>◌}
use credbroker.Json.{Json, Fields, null, bool, num, str, arr, obj, nil, end, lookup}
use credbroker.World.{Outside, Request, Response, M, await, emit, contacted}

-- `ToolAdapter`, with the configured base URL of the Drive adapter
pub record ToolAdapter : Type 0 where
  pub name : Text
  pub provider : Text
  pub scope : Text
  pub side_effectful : Bool
  pub base_url : Text

abbrev pub drive_api_default : Text
drive_api_default = codes "https://www.googleapis.com/drive/v3"

-- `a or b` on texts
abbrev pub or_text : Text → Text → Text
or_text [] b = b
or_text (c ∷ a) b = c ∷ a

-- `DriveListFilesTool` after `configure`
abbrev pub drive_list_files : Settings → ToolAdapter
drive_list_files settings = record {
  name = codes "drive.read";
  provider = codes "google";
  scope = codes "read";
  side_effectful = false;
  base_url = or_text settings.drive_api_base_url drive_api_default;
}

-- `TOOL_REGISTRY` as credbroker/tools/__init__.py and `configure_tools` leave it
abbrev pub tool_registry : Settings → List ToolAdapter
tool_registry settings = drive_list_files settings ∷ []

pub find_tool : Text → List ToolAdapter → Option ToolAdapter
find_tool wanted [] = none
find_tool wanted (t ∷ ts) = if text_eq t.name wanted then some t else find_tool wanted ts

-- `get_tool`
unfoldable pub get_tool : Settings → Text → Result ToolAdapter
unfolding find_tool
get_tool settings wanted = elim (find_tool wanted (tool_registry settings)) [
  | none ↦ err (broker unknown_tool (codes "unknown tool: " ++ wanted))
  | some t ↦ ok t
]

-- `bool(x)`
abbrev pub truthy : Json → Bool
truthy null = false
truthy (bool b) = b
truthy (num zero) = false
truthy (num (suc n)) = true
truthy (str []) = false
truthy (str (_ ∷ _)) = true
truthy (arr nil) = false
truthy (arr _) = true
truthy (obj end) = false
truthy (obj _) = true

module _ (o : Outside) where
  -- `str(int(x))`; `int` of `None`, of a list or of a dict is a `TypeError`
  unfoldable pub int_of : Json → Result Text
  int_of (bool true) = ok (codes "1")
  int_of (bool false) = ok (codes "0")
  int_of (num n) = ok (decimal n)
  int_of (str t) = elim (o.int_text t) [
    | none ↦ err (value_error (codes "invalid literal for int()"))
    | some digits ↦ ok digits
  ]
  int_of _ = err (other (codes "int() argument must be a string or a number"))

  page_size : Option Json → Result Text
  unfolding int_of
  page_size none = ok (codes "25")
  page_size (some x) = int_of x

  -- `if value := arguments.get(key): params[name] = str(value)`
  optional_param : Text → Option Json → List (Text × Text)
  optional_param name none = []
  optional_param name (some x) = if truthy x then (name, o.str_of x) ∷ [] else []

  check_response : Response → Result Json
  check_response r =
      if leb 400 r.status_code
      then err (
          provider_call (codes "drive.read failed with HTTP " ++ decimal r.status_code)
            (some r.status_code))
      else elim r.json [ none ↦ err (value_error (codes "Expecting value")) | some body ↦ ok body ]

  unfoldable pub answer : Request → M o Response
  answer request w = (o.http w.steps request, w)

  -- One request over the HTTP client: the answer may depend on when it is sent.
  unfoldable pub send : Request → M o Response
  unfolding answer
  send request = do await o; answer request

  -- `DriveListFilesTool.call`
  unfoldable pub call : ToolAdapter → Text → Fields → M o Json
  unfolding page_size optional_param check_response
  call tool access_token arguments = do
    size ← lift (page_size (lookup (codes "page_size") arguments))
    emit o (contacted access_token)
    response ← send (record {
      url = tool.base_url ++ codes "/files";
      params =
          (codes "pageSize", size)
          ∷ (codes "fields", codes "nextPageToken,files(id,name,mimeType,modifiedTime)")
          ∷ (optional_param (codes "q") (lookup (codes "query") arguments)
              ++ optional_param (codes "pageToken") (lookup (codes "page_token") arguments));
      bearer = some access_token;
    })
    lift (check_response response)
