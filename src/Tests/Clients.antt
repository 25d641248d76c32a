-- ===== src/Tests/Clients.antt =====
-- Tests of `resolve_all` on a machine: one card, an IPv4 stack after the first pass, one driver on the
-- disk, and an HTTP client that answers with the address it is asked for.
use alpheratz.Prelude.{
  ◌≡◌, ℕ, ◌+◌, refl, List, Option, [], ◌∷◌, none, some, true, ◌⊎◌, ◌⊎◌, ◌++◌, bytes, Str,
}
use alpheratz.Arch.{Arch, arch_name}
use alpheratz.Config.{
  Config, Entry, BootFile, Protocol, FileType, SearchMethod, esp, https, default_config,
  default_entry_index,
}
use alpheratz.Firmware.{ok}
use alpheratz.FsUtil.{
  OpenFile, Volume, regular, open_esp_root, read_file, read_regular, into_regular_file, read_into,
  all_drivers, node_drivers,
}
use alpheratz.FsUtil.Images.{load_drivers, try_each, load_and_start_image}
use alpheratz.Session.{Session, Message, map_err}
use alpheratz.Net.Select.{select_nic_handle, choose, wanted, open_ip4config2}
use alpheratz.Net.BringUp.{
  bring_up_ipv4, passes, has_ip4, pass_message, connect_nic, connect_all_controllers, connect_each,
  count_protocol_handles, by_type, bring_up_dhcp, open_ip4, report, gateway_messages, dns_messages,
  wanted_type,
}
use alpheratz.Download.{
  resolve_all, place, place_if, unwrap_or_empty, joined, finish, any_needs, needs,
}
use alpheratz.Download.Text.{expand_vars, contains, replace, starts_with, is_utf8}
use alpheratz.Download.Client.{
  Machine, start_http, select_nic, http_client, resolve_all_on, resolve_opened, open_root_if,
  start_if, read_on, read_from, download_on, download_by, contents_on, resolve_files_on,
}
use alpheratz.Download.Request.{download, collect}
use alpheratz.Download.Online.{sources_for, RootDecides, resolve_all_on-resolve_all}
use alpheratz.Menu.{
  printable, show, run, start, continue, round, total_items, confirm, index_to_selection,
}
use alpheratz.Main.{boot_linux, dispatch}
use alpheratz.Main.Wait.{wait_for_key}
use alpheratz.Main.Load.{load_config, read_config, unwrap_or_default, from_utf8}
use alpheratz.Main.OnMachine.{Typed, main_on, loop_on}
use alpheratz.Download.Started.{with_drivers, chosen_nic, start_http-ok}

abbrev file : OpenFile
file = record { file_size = ok 2; read = λ size. ok (bytes "MZ") }

abbrev root : Volume
root = record { is_cstring16 = λ p. true; open_path = λ p. ok (regular file) }

-- The world counts the images loaded, as hundreds, and what the network was asked to do.
abbrev pub machine : Machine ℕ
machine = record {
  arch_name = arch_name Arch.riscv64;
  disk = record {
    loaded_image = ok 1;
    device = λ image. some 2;
    simple_file_system = λ device. ok 3;
    open_volume = λ sfs. ok root;
  };
  images = record { load_image = λ image w. (ok 5, w + 100); start_image = λ h w. (ok tt, w) };
  net = record {
    open_snp_readonly = λ w h. none;
    connect_controller = λ h w. w + 1;
    all_handles = λ w. none;
    snp_handles = λ w. ok (4 ∷ []);
    ip4_handles = λ w. ok (4 ∷ []);
    ip4_new = λ w h. ok h;
    ifup = λ h w. (ok tt, w + 10);
    get_interface_info = λ h w. none;
    get_gateway = λ h w. none;
    get_dns = λ h w. none;
  };
  http = record {
    http_new = λ nic w. (ok 6, w + 1000);
    configure = λ h w. (ok tt, w + 2000);
    request_get = λ h url w. (ok tt, w + 10000);
    response_first = λ h w. (ok (bytes "i"), w + 100000);
    response_more = λ h w. (ok [], w + 1000000);
    fuel = 2;
  };
}

abbrev config : Config
config = record default_config { drivers = bytes "net.efi" ∷ [] }

abbrev a_file : FileType → SearchMethod → Str → BootFile
a_file t m name = record {
  file_type = t;
  search = m;
  file = some name;
  content = none;
  select = none;
}

abbrev entry : Entry
entry = record {
  name = bytes "Net";
  protocol = Protocol.linux;
  identity = none;
  files = a_file FileType.kernel esp (bytes "k") ∷ a_file FileType.initrd https (bytes "i") ∷ [];
}

abbrev pub session : Session ℕ
session = record { world = 0; messages = [] }

abbrev started : List Message
started = Message.waiting_for_dhcp ∷ Message.ipv4_ready ∷ Message.creating_http_client ∷ []

abbrev after : Session ℕ
after = record { world = 3111; messages = started }

abbrev files_read : List Message
files_read =
    Message.reading (bytes "k")
    ∷ Message.byte_count 2
    ∷ Message.downloading (bytes "i")
    ∷ Message.byte_count 1
    ∷ []

abbrev resolved : Session ℕ
resolved = record { world = 1113111; messages = started ++ files_read }

start_http_run : start_http machine config session ≡ (ok 6, after)
unfolding start_http select_nic http_client load_drivers try_each load_and_start_image read_file
    read_regular into_regular_file read_into open_esp_root all_drivers node_drivers
    select_nic_handle choose wanted map_err bring_up_ipv4 passes has_ip4 pass_message connect_nic
    connect_all_controllers connect_each count_protocol_handles by_type bring_up_dhcp open_ip4
    open_ip4config2 report gateway_messages dns_messages wanted_type
start_http_run = refl

start_http-ok_example :
    (nic : ℕ) × (chosen_nic machine config (with_drivers machine config session) ≡ ok nic)
    × ((up : Session ℕ) × (bring_up_ipv4 machine.net config nic
            (with_drivers machine config session)
          ≡ (ok tt, up))
        × ((w : ℕ) × (machine.http.http_new nic up.world ≡ (ok 6, w))
            × (machine.http.configure 6 w ≡ (ok tt, 3111))))
start_http-ok_example = start_http-ok machine config 6 session after start_http_run

resolve_all_on_run : resolve_all_on machine config entry session ≡ (
  ok (record { kernel = some (bytes "MZ"); initrd = some (bytes "i"); cmdline = none }),
  resolved,
)
unfolding resolve_all_on resolve_opened open_root_if start_if resolve_files_on contents_on read_on
    read_from download_on download_by download collect place place_if unwrap_or_empty joined finish
    any_needs needs expand_vars contains replace starts_with start_http select_nic http_client
    load_drivers try_each load_and_start_image read_file read_regular into_regular_file read_into
    open_esp_root all_drivers node_drivers select_nic_handle choose wanted map_err bring_up_ipv4
    passes has_ip4 pass_message connect_nic connect_all_controllers connect_each
    count_protocol_handles by_type bring_up_dhcp open_ip4 open_ip4config2 report gateway_messages
    dns_messages wanted_type
resolve_all_on_run = refl

resolve_all_on-resolve_all_example :
    ((resolve_all_on machine config entry session).0
      ≡ resolve_all (sources_for machine config entry session) entry)
    × ((any_needs https entry.files ≡ true)
        ⊎ ((resolve_all_on machine config entry session).1.world ≡ session.world))
    × RootDecides machine config entry session
resolve_all_on-resolve_all_example = resolve_all_on-resolve_all machine config entry session

-- Whatever the file says is the configuration above, with the entry.
abbrev from_str : Str → Option Config
from_str s = some (record config { timeout = 0; entry = entry ∷ [] })

abbrev typed : List Typed
typed = record { keys = none ∷ some (printable 13) ∷ []; readings = [] } ∷ []

main_on_run : main_on machine from_str typed session ≡ (
  boot_linux 0 (bytes "MZ") (some (bytes "i")) none,
  record resolved { messages = Message.selected Protocol.linux (bytes "Net") ∷ resolved.messages },
)
unfolding main_on loop_on load_config read_config unwrap_or_default from_utf8 is_utf8 show run start
    continue round total_items confirm index_to_selection default_entry_index dispatch wait_for_key
    resolve_all_on resolve_opened open_root_if start_if resolve_files_on contents_on read_on
    read_from download_on download_by download collect place place_if unwrap_or_empty joined finish
    any_needs needs expand_vars contains replace starts_with start_http select_nic http_client
    load_drivers try_each load_and_start_image read_file read_regular into_regular_file read_into
    open_esp_root all_drivers node_drivers select_nic_handle choose wanted map_err bring_up_ipv4
    passes has_ip4 pass_message connect_nic connect_all_controllers connect_each
    count_protocol_handles by_type bring_up_dhcp open_ip4 open_ip4config2 report gateway_messages
    dns_messages wanted_type
main_on_run = refl
