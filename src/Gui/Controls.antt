-- ===== src/Gui/Controls.antt =====
-- The controls of the window (src/gui.rs): what the handler of `WM_CREATE` creates, with the styles,
-- places and identifiers of the source, and which of them `switch_tab` shows. The creation of a
-- control is taken to succeed.
use phobos_wg_client.Base.{ℕ, Bool, true, false, List, [], ◌∷◌, ◌++◌, codes}
use phobos_wg_client.Text.{Text}

abbrev pub id_tab_control : ℕ
id_tab_control = 1001

abbrev pub id_list_tunnels : ℕ
id_list_tunnels = 1002

abbrev pub id_btn_add : ℕ
id_btn_add = 1003

abbrev pub id_btn_delete : ℕ
id_btn_delete = 1004

abbrev pub id_grp_interface : ℕ
id_grp_interface = 1010

abbrev pub id_btn_copy_pubkey : ℕ
id_btn_copy_pubkey = 1015

abbrev pub id_btn_toggle : ℕ
id_btn_toggle = 1022

abbrev pub id_grp_peer : ℕ
id_grp_peer = 1030

abbrev pub id_btn_copy_logs : ℕ
id_btn_copy_logs = 1051

abbrev pub id_btn_clear_logs : ℕ
id_btn_clear_logs = 1052

abbrev pub id_txt_logs : ℕ
id_txt_logs = 1053

pub data Class : Type 0 where
  tab_class : Class
  static_class : Class
  btn_class : Class
  list_class : Class
  edit_class : Class

pub data Style : Type 0 where
  ws_child : Style
  ws_visible : Style
  ws_clipsiblings : Style
  ws_vscroll : Style
  ws_hscroll : Style
  ws_tabstop : Style
  lbs_notify : Style
  lbs_ownerdrawfixed : Style
  lbs_hasstrings : Style
  bs_pushbutton : Style
  bs_groupbox : Style
  es_multiline : Style
  es_readonly : Style
  es_autovscroll : Style

pub data Font : Type 0 where
  hfont : Font
  hfont_bold : Font
  hfont_mono : Font

-- The arguments of `create_control`; `client_edge` is the extended style.
pub record Control : Type 0 where
  pub class : Class
  pub title : Text
  pub style : List Style
  pub client_edge : Bool
  pub x : ℕ
  pub y : ℕ
  pub w : ℕ
  pub h : ℕ
  pub id : ℕ
  pub font : Font

abbrev pub create_control : Class → Text → List Style → Bool → ℕ → ℕ → ℕ → ℕ → ℕ → Font → Control
create_control class title style client_edge x y w h id font = record {
  class = class;
  title = title;
  style = style;
  client_edge = client_edge;
  x = x;
  y = y;
  w = w;
  h = h;
  id = id;
  font = font;
}

abbrev pub make_label : Text → ℕ → ℕ → ℕ → ℕ → Font → Control
make_label title x y w h font =
    create_control static_class title (ws_child ∷ ws_visible ∷ []) false x y w h 0 font

-- The name of a value in front of it, one line of the details.
abbrev pub caption : Text → ℕ → Font → Control
caption title y font = make_label title 260 y 110 18 font

abbrev pub value : Text → ℕ → Font → Control
value title y font = make_label title 375 y 330 18 font

abbrev pub visible_style : List Style
visible_style = ws_child ∷ ws_visible ∷ []

abbrev pub button_style : List Style
button_style = ws_child ∷ ws_visible ∷ ws_tabstop ∷ bs_pushbutton ∷ []

abbrev pub group_style : List Style
group_style = ws_child ∷ ws_visible ∷ bs_groupbox ∷ []

abbrev pub tab_control : Control
tab_control =
    create_control tab_class [] (ws_child ∷ ws_visible ∷ ws_clipsiblings ∷ []) false 10 10 724 495
      id_tab_control hfont

-- The left column.
abbrev pub list_controls : List Control
list_controls =
    create_control static_class (codes "Туннели:") visible_style false 24 46 120 18 0 hfont
    ∷ create_control list_class []
        (ws_child ∷ ws_visible ∷ ws_vscroll ∷ ws_tabstop ∷ lbs_notify ∷ lbs_ownerdrawfixed
          ∷ lbs_hasstrings ∷ [])
        true 24 68 206 380 id_list_tunnels hfont
    ∷ create_control btn_class (codes "➕ Добавить") button_style false 24 458 120 30 id_btn_add
        hfont
    ∷ create_control btn_class (codes "❌ Удалить") button_style false 148 458 82 30 id_btn_delete
        hfont
    ∷ []

-- The right column: the interface.
abbrev pub interface_controls : List Control
interface_controls =
    create_control btn_class (codes "Интерфейс: 123") group_style false 244 44 474 206
      id_grp_interface hfont_bold
    ∷ caption (codes "Статус:") 68 hfont_bold
    ∷ value (codes "○ Отключен") 68 hfont_bold
    ∷ caption (codes "Публичный ключ:") 92 hfont
    ∷ make_label (codes "---") 375 92 260 18 hfont_mono
    ∷ create_control btn_class (codes "📋") (ws_child ∷ ws_visible ∷ bs_pushbutton ∷ []) false 640 89
        32 22 id_btn_copy_pubkey hfont
    ∷ caption (codes "MTU:") 116 hfont
    ∷ value (codes "1280") 116 hfont
    ∷ caption (codes "IP-адреса:") 140 hfont
    ∷ value (codes "---") 140 hfont
    ∷ caption (codes "DNS-серверы:") 164 hfont
    ∷ value (codes "---") 164 hfont
    ∷ create_control btn_class (codes "Подключить") button_style false 260 196 130 32 id_btn_toggle
        hfont_bold
    ∷ []

-- The right column: the peer.
abbrev pub peer_controls : List Control
peer_controls =
    create_control btn_class (codes "Пир") group_style false 244 258 474 230 id_grp_peer hfont_bold
    ∷ caption (codes "Публичный ключ:") 280 hfont
    ∷ value (codes "---") 280 hfont_mono
    ∷ caption (codes "Общий ключ:") 304 hfont
    ∷ value (codes "отключено") 304 hfont
    ∷ caption (codes "Разрешенные IP:") 328 hfont
    ∷ value (codes "0.0.0.0/1, 128.0.0.0/1, ::/1, 8000::/1") 328 hfont
    ∷ caption (codes "Сервер (Endpoint):") 352 hfont
    ∷ value (codes "---") 352 hfont
    ∷ caption (codes "Передача данных:") 376 hfont
    ∷ value (codes "---") 376 hfont
    ∷ caption (codes "Рукопожатие:") 400 hfont
    ∷ value (codes "---") 400 hfont
    ∷ []

-- The two lists of the window's state.
abbrev pub tunnel_controls : List Control
tunnel_controls = list_controls ++ (interface_controls ++ peer_controls)

abbrev pub log_controls : List Control
log_controls =
    make_label (codes "Журнал событий:") 24 46 200 20 hfont_bold
    ∷ create_control btn_class (codes "📋 Копировать всё") (ws_child ∷ bs_pushbutton ∷ []) false 520
        42 120 26 id_btn_copy_logs hfont
    ∷ create_control btn_class (codes "🗑 Очистить") (ws_child ∷ bs_pushbutton ∷ []) false 646 42 72
        26 id_btn_clear_logs hfont
    ∷ create_control edit_class []
        (ws_child ∷ ws_vscroll ∷ ws_hscroll ∷ es_multiline ∷ es_readonly ∷ es_autovscroll ∷ []) true
        24 74 694 414 id_txt_logs hfont_mono
    ∷ []
