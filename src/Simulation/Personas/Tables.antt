-- ===== src/Simulation/Personas/Tables.antt =====
-- simulation-client/src/models/personas.js: the tables of locales, names and questions.
use microsvc.Prelude.{String, List, [], ◌∷◌}

pub record Profile : Type 0 where
  pub language : String
  pub first_names : List String
  pub last_names : List String
  pub questions : List String

abbrev pub locale_cycle : List String
locale_cycle =
    "en-US" ∷ "en-US" ∷ "en-US" ∷ "en-US" ∷ "en-US" ∷ "en-GB" ∷ "en-CA" ∷ "en-AU" ∷ "es-MX"
    ∷ "es-ES" ∷ "fr-FR" ∷ "de-DE" ∷ "it-IT" ∷ "nl-NL" ∷ "sv-SE" ∷ "pl-PL" ∷ "pt-BR" ∷ "ja-JP"
    ∷ "ko-KR" ∷ "zh-CN" ∷ []

abbrev pub en_us : Profile
en_us = record {
  language = "English";
  first_names =
      "Olivia" ∷ "Emma" ∷ "Ava" ∷ "Sophia" ∷ "Mia" ∷ "Charlotte" ∷ "Amelia" ∷ "Harper" ∷ "Liam"
      ∷ "Noah" ∷ "Ethan" ∷ "Lucas" ∷ [];
  last_names =
      "Smith" ∷ "Johnson" ∷ "Williams" ∷ "Brown" ∷ "Miller" ∷ "Davis" ∷ "Wilson" ∷ "Anderson"
      ∷ "Taylor" ∷ "Martin" ∷ "Thompson" ∷ "Clark" ∷ [];
  questions =
      "What's my account balance?" ∷ "Show me my recent transactions."
      ∷ "Am I spending too much this month?" ∷ "What are my biggest expenses?" ∷ [];
}

abbrev en_gb : Profile
en_gb = record {
  language = "English";
  first_names =
      "Oliver" ∷ "George" ∷ "Harry" ∷ "Jack" ∷ "Arthur" ∷ "Isla" ∷ "Freya" ∷ "Grace" ∷ "Amelia"
      ∷ "Florence" ∷ [];
  last_names =
      "Smith" ∷ "Jones" ∷ "Taylor" ∷ "Brown" ∷ "Williams" ∷ "Wilson" ∷ "Evans" ∷ "Thomas"
      ∷ "Roberts" ∷ "Walker" ∷ [];
  questions =
      "What's my current account balance?" ∷ "Can you show my latest transactions?"
      ∷ "Am I overspending this month?" ∷ "Which expenses are highest?" ∷ [];
}

abbrev en_ca : Profile
en_ca = record {
  language = "English";
  first_names =
      "Liam" ∷ "Noah" ∷ "William" ∷ "Lucas" ∷ "Benjamin" ∷ "Emma" ∷ "Olivia" ∷ "Charlotte"
      ∷ "Sophia" ∷ "Ava" ∷ [];
  last_names =
      "Smith" ∷ "Brown" ∷ "Tremblay" ∷ "Martin" ∷ "Roy" ∷ "Wilson" ∷ "Taylor" ∷ "Campbell"
      ∷ "Anderson" ∷ "Lee" ∷ [];
  questions =
      "What's my account balance?" ∷ "Show me my recent transactions."
      ∷ "Am I spending too much this month?" ∷ "What are my biggest expenses?" ∷ [];
}

abbrev en_au : Profile
en_au = record {
  language = "English";
  first_names =
      "Oliver" ∷ "Noah" ∷ "Jack" ∷ "Henry" ∷ "Leo" ∷ "Charlotte" ∷ "Olivia" ∷ "Amelia" ∷ "Isla"
      ∷ "Mia" ∷ [];
  last_names =
      "Smith" ∷ "Jones" ∷ "Williams" ∷ "Brown" ∷ "Wilson" ∷ "Taylor" ∷ "Martin" ∷ "Anderson"
      ∷ "Thompson" ∷ "White" ∷ [];
  questions =
      "What's my account balance?" ∷ "Show my recent transactions."
      ∷ "Am I spending too much lately?" ∷ "What are my largest expenses?" ∷ [];
}

abbrev es_mx : Profile
es_mx = record {
  language = "Spanish";
  first_names =
      "Sofia" ∷ "Valentina" ∷ "Camila" ∷ "Regina" ∷ "Mateo" ∷ "Santiago" ∷ "Diego" ∷ "Emiliano"
      ∷ "Lucia" ∷ "Daniel" ∷ [];
  last_names =
      "Garcia" ∷ "Hernandez" ∷ "Lopez" ∷ "Martinez" ∷ "Gonzalez" ∷ "Perez" ∷ "Rodriguez" ∷ "Sanchez"
      ∷ "Ramirez" ∷ "Torres" ∷ [];
  questions =
      "Cual es el saldo de mi cuenta?" ∷ "Muestrame mis transacciones recientes."
      ∷ "Estoy gastando demasiado este mes?" ∷ "Cuales son mis gastos mas grandes?" ∷ [];
}

abbrev es_es : Profile
es_es = record {
  language = "Spanish";
  first_names =
      "Lucia" ∷ "Sofia" ∷ "Martina" ∷ "Maria" ∷ "Julia" ∷ "Hugo" ∷ "Martin" ∷ "Lucas" ∷ "Leo"
      ∷ "Daniel" ∷ [];
  last_names =
      "Garcia" ∷ "Rodriguez" ∷ "Gonzalez" ∷ "Fernandez" ∷ "Lopez" ∷ "Martinez" ∷ "Sanchez" ∷ "Perez"
      ∷ "Gomez" ∷ "Martin" ∷ [];
  questions =
      "Cual es el saldo de mi cuenta?" ∷ "Enseneme mis transacciones recientes."
      ∷ "Estoy gastando demasiado este mes?" ∷ "Cuales son mis mayores gastos?" ∷ [];
}

abbrev fr_fr : Profile
fr_fr = record {
  language = "French";
  first_names =
      "Camille" ∷ "Lea" ∷ "Chloe" ∷ "Manon" ∷ "Emma" ∷ "Hugo" ∷ "Louis" ∷ "Gabriel" ∷ "Arthur"
      ∷ "Jules" ∷ [];
  last_names =
      "Martin" ∷ "Bernard" ∷ "Dubois" ∷ "Thomas" ∷ "Robert" ∷ "Richard" ∷ "Petit" ∷ "Durand"
      ∷ "Leroy" ∷ "Moreau" ∷ [];
  questions =
      "Quel est le solde de mon compte ?" ∷ "Montrez-moi mes transactions recentes."
      ∷ "Est-ce que je depense trop ce mois-ci ?" ∷ "Quelles sont mes plus grosses depenses ?" ∷ [];
}

abbrev de_de : Profile
de_de = record {
  language = "German";
  first_names =
      "Emma" ∷ "Mia" ∷ "Hannah" ∷ "Sofia" ∷ "Lina" ∷ "Ben" ∷ "Paul" ∷ "Leon" ∷ "Finn" ∷ "Felix"
      ∷ [];
  last_names =
      "Muller" ∷ "Schmidt" ∷ "Schneider" ∷ "Fischer" ∷ "Weber" ∷ "Meyer" ∷ "Wagner" ∷ "Becker"
      ∷ "Hoffmann" ∷ "Schulz" ∷ [];
  questions =
      "Wie hoch ist mein Kontostand?" ∷ "Zeigen Sie mir meine letzten Transaktionen."
      ∷ "Gebe ich diesen Monat zu viel aus?" ∷ "Was sind meine groessten Ausgaben?" ∷ [];
}

abbrev it_it : Profile
it_it = record {
  language = "Italian";
  first_names =
      "Giulia" ∷ "Sofia" ∷ "Aurora" ∷ "Alice" ∷ "Ginevra" ∷ "Leonardo" ∷ "Francesco" ∷ "Lorenzo"
      ∷ "Alessandro" ∷ "Mattia" ∷ [];
  last_names =
      "Rossi" ∷ "Russo" ∷ "Ferrari" ∷ "Esposito" ∷ "Bianchi" ∷ "Romano" ∷ "Colombo" ∷ "Ricci"
      ∷ "Marino" ∷ "Greco" ∷ [];
  questions =
      "Qual e il saldo del mio conto?" ∷ "Mostrami le mie transazioni recenti."
      ∷ "Sto spendendo troppo questo mese?" ∷ "Quali sono le mie spese piu grandi?" ∷ [];
}

abbrev nl_nl : Profile
nl_nl = record {
  language = "Dutch";
  first_names =
      "Emma" ∷ "Tess" ∷ "Sophie" ∷ "Julia" ∷ "Mila" ∷ "Daan" ∷ "Sem" ∷ "Lucas" ∷ "Finn" ∷ "Levi"
      ∷ [];
  last_names =
      "DeVries" ∷ "Jansen" ∷ "Bakker" ∷ "Visser" ∷ "Smit" ∷ "Meijer" ∷ "DeBoer" ∷ "Mulder" ∷ "Bos"
      ∷ "Vos" ∷ [];
  questions =
      "Wat is mijn rekeningsaldo?" ∷ "Laat mijn recente transacties zien."
      ∷ "Geef ik deze maand te veel uit?" ∷ "Wat zijn mijn grootste uitgaven?" ∷ [];
}

abbrev sv_se : Profile
sv_se = record {
  language = "Swedish";
  first_names =
      "Alice" ∷ "Elsa" ∷ "Maja" ∷ "Lilly" ∷ "Ella" ∷ "Oscar" ∷ "Lucas" ∷ "William" ∷ "Liam" ∷ "Noah"
      ∷ [];
  last_names =
      "Andersson" ∷ "Johansson" ∷ "Karlsson" ∷ "Nilsson" ∷ "Eriksson" ∷ "Larsson" ∷ "Olsson"
      ∷ "Persson" ∷ "Svensson" ∷ "Gustafsson" ∷ [];
  questions =
      "Vad ar saldot pa mitt konto?" ∷ "Visa mina senaste transaktioner."
      ∷ "Spenderar jag for mycket den har manaden?" ∷ "Vilka ar mina storsta utgifter?" ∷ [];
}

abbrev pl_pl : Profile
pl_pl = record {
  language = "Polish";
  first_names =
      "Zofia" ∷ "Hanna" ∷ "Julia" ∷ "Maja" ∷ "Laura" ∷ "Jan" ∷ "Antoni" ∷ "Jakub" ∷ "Aleksander"
      ∷ "Szymon" ∷ [];
  last_names =
      "Nowak" ∷ "Kowalski" ∷ "Wisniewski" ∷ "Wojcik" ∷ "Kowalczyk" ∷ "Kaminski" ∷ "Lewandowski"
      ∷ "Zielinski" ∷ "Szymanski" ∷ "Dabrowski" ∷ [];
  questions =
      "Jakie jest saldo mojego konta?" ∷ "Pokaz moje ostatnie transakcje."
      ∷ "Czy wydaje za duzo w tym miesiacu?" ∷ "Jakie sa moje najwieksze wydatki?" ∷ [];
}

abbrev pt_br : Profile
pt_br = record {
  language = "Portuguese";
  first_names =
      "Ana" ∷ "Beatriz" ∷ "Mariana" ∷ "Laura" ∷ "Isabela" ∷ "Joao" ∷ "Pedro" ∷ "Lucas" ∷ "Miguel"
      ∷ "Gabriel" ∷ [];
  last_names =
      "Silva" ∷ "Santos" ∷ "Oliveira" ∷ "Souza" ∷ "Rodrigues" ∷ "Ferreira" ∷ "Alves" ∷ "Pereira"
      ∷ "Lima" ∷ "Gomes" ∷ [];
  questions =
      "Qual e o saldo da minha conta?" ∷ "Mostre minhas transacoes recentes."
      ∷ "Estou gastando demais este mes?" ∷ "Quais sao minhas maiores despesas?" ∷ [];
}

abbrev ja_jp : Profile
ja_jp = record {
  language = "Japanese";
  first_names =
      "Yuki" ∷ "Haruto" ∷ "Sota" ∷ "Yuto" ∷ "Ren" ∷ "Hina" ∷ "Sakura" ∷ "Aoi" ∷ "Mei" ∷ "Rin" ∷ [];
  last_names =
      "Sato" ∷ "Suzuki" ∷ "Takahashi" ∷ "Tanaka" ∷ "Watanabe" ∷ "Ito" ∷ "Yamamoto" ∷ "Nakamura"
      ∷ "Kobayashi" ∷ "Kato" ∷ [];
  questions = "口座残高を教えてください。" ∷ "最近の取引を見せてください。" ∷ "今月使いすぎていますか?" ∷ "一番大きな支出は何ですか?" ∷ [];
}

abbrev ko_kr : Profile
ko_kr = record {
  language = "Korean";
  first_names =
      "SeoJun" ∷ "DoYun" ∷ "HaJun" ∷ "JiHo" ∷ "MinJun" ∷ "SeoYeon" ∷ "HaYoon" ∷ "JiA" ∷ "SeoAh"
      ∷ "HaEun" ∷ [];
  last_names =
      "Kim" ∷ "Lee" ∷ "Park" ∷ "Choi" ∷ "Jung" ∷ "Kang" ∷ "Cho" ∷ "Yoon" ∷ "Jang" ∷ "Lim" ∷ [];
  questions =
      "내 계좌 잔액을 알려 주세요." ∷ "최근 거래 내역을 보여 주세요." ∷ "이번 달에 너무 많이 쓰고 있나요?" ∷ "가장 큰 지출은 무엇인가요?" ∷ [];
}

abbrev zh_cn : Profile
zh_cn = record {
  language = "Chinese";
  first_names =
      "Wei" ∷ "Fang" ∷ "Jing" ∷ "Lei" ∷ "Ming" ∷ "Hao" ∷ "Chen" ∷ "Liang" ∷ "Mei" ∷ "Yan" ∷ [];
  last_names =
      "Wang" ∷ "Li" ∷ "Zhang" ∷ "Liu" ∷ "Chen" ∷ "Yang" ∷ "Huang" ∷ "Zhao" ∷ "Wu" ∷ "Zhou" ∷ [];
  questions = "请告诉我账户余额。" ∷ "请显示我最近的交易。" ∷ "我这个月花得太多了吗?" ∷ "我最大的支出是什么?" ∷ [];
}

unfoldable pub profile_by_locale : List (String × Profile)
profile_by_locale =
    ("en-US", en_us)
    ∷ ("en-GB", en_gb)
    ∷ ("en-CA", en_ca)
    ∷ ("en-AU", en_au)
    ∷ ("es-MX", es_mx)
    ∷ ("es-ES", es_es)
    ∷ ("fr-FR", fr_fr)
    ∷ ("de-DE", de_de)
    ∷ ("it-IT", it_it)
    ∷ ("nl-NL", nl_nl)
    ∷ ("sv-SE", sv_se)
    ∷ ("pl-PL", pl_pl)
    ∷ ("pt-BR", pt_br)
    ∷ ("ja-JP", ja_jp)
    ∷ ("ko-KR", ko_kr)
    ∷ ("zh-CN", zh_cn)
    ∷ []
