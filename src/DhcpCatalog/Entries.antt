-- ===== src/DhcpCatalog/Entries.antt =====
-- The entries of the catalogs in server/src/utils/dhcp-options.js.
use Prim.Native.String.{String}
use cidrella.Base.{ℕ, Bool, true, false, List, []}
use cidrella.Base.Text.{Text, codes}

pub data OptionType : Type 0 where
  ip ip_list text text_list number select flag : OptionType

pub record DhcpOption : Type 0 where
  pub code : ℕ
  pub name : Text
  pub label : Text
  pub type : OptionType
  pub group : Text
  pub rfc : Text
  pub rfc_url : Text
  pub description : Text
  pub choices : List Text
  pub built_in : Bool

-- An entry without `choices` and `builtIn`.
abbrev pub option :
    ℕ → String → String → OptionType → String → String → String → String → DhcpOption
option code name label type group rfc rfc_url description = record {
  code = code;
  name = codes name;
  label = codes label;
  type = type;
  group = codes group;
  rfc = codes rfc;
  rfc_url = codes rfc_url;
  description = codes description;
  choices = [];
  built_in = false;
}

abbrev pub with_choices : List Text → DhcpOption → DhcpOption
with_choices choices o = record o { choices = choices }

abbrev pub as_built_in : DhcpOption → DhcpOption
as_built_in o = record o { built_in = true }
