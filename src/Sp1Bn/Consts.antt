-- ===== src/Sp1Bn/Consts.antt =====
-- crates/sp1-bn-verifier/src/consts.rs.
use Prim.Native.Char.{code}
use hokulea.Base.{
  ℕ, String, Option, List, [], ◌∷◌, Outcome, ok, ◌>>=◌, or_panic, traverse, get_elem?, map,
}
use hokulea.Cert.{ByteList}
use hokulea.Sp1Bn.{KzgError, Substrate}

-- The characters of an ASCII text, which are its bytes.
abbrev pub codes : String → List ℕ
codes String.[] = []
codes (String.◌∷◌ c s) = code c ∷ codes s

abbrev pub bytes_per_field_element : ℕ
bytes_per_field_element = 32

abbrev pub size_of_g1_affine_compressed : ℕ
size_of_g1_affine_compressed = 32

abbrev pub fiat_shamir_protocol_domain : ByteList
fiat_shamir_protocol_domain = codes "EIGENDA_FSBLOBVERIFY_V1_"

abbrev pub random_challenge_kzg_batch_domain : ByteList
random_challenge_kzg_batch_domain = codes "EIGENDA_RCKZGBATCH___V1_"

abbrev pub mainnet_srs_g1_size : ℕ
mainnet_srs_g1_size = 268_435_456

-- the decimals of primitive 2 ^ n-th roots of unity, for n from 0 to 28
unfoldable pub primitive_roots_of_unity_dec : List (List ℕ)
primitive_roots_of_unity_dec = map codes (
    "1" ∷ "21888242871839275222246405745257275088548364400416034343698204186575808495616"
    ∷ "21888242871839275217838484774961031246007050428528088939761107053157389710902"
    ∷ "19540430494807482326159819597004422086093766032135589407132600596362845576832"
    ∷ "14940766826517323942636479241147756311199852622225275649687664389641784935947"
    ∷ "4419234939496763621076330863786513495701855246241724391626358375488475697872"
    ∷ "9088801421649573101014283686030284801466796108869023335878462724291607593530"
    ∷ "10359452186428527605436343203440067497552205259388878191021578220384701716497"
    ∷ "3478517300119284901893091970156912948790432420133812234316178878452092729974"
    ∷ "6837567842312086091520287814181175430087169027974246751610506942214842701774"
    ∷ "3161067157621608152362653341354432744960400845131437947728257924963983317266"
    ∷ "1120550406532664055539694724667294622065367841900378087843176726913374367458"
    ∷ "4158865282786404163413953114870269622875596290766033564087307867933865333818"
    ∷ "197302210312744933010843010704445784068657690384188106020011018676818793232"
    ∷ "20619701001583904760601357484951574588621083236087856586626117568842480512645"
    ∷ "20402931748843538985151001264530049874871572933694634836567070693966133783803"
    ∷ "421743594562400382753388642386256516545992082196004333756405989743524594615"
    ∷ "12650941915662020058015862023665998998969191525479888727406889100124684769509"
    ∷ "11699596668367776675346610687704220591435078791727316319397053191800576917728"
    ∷ "15549849457946371566896172786938980432421851627449396898353380550861104573629"
    ∷ "17220337697351015657950521176323262483320249231368149235373741788599650842711"
    ∷ "13536764371732269273912573961853310557438878140379554347802702086337840854307"
    ∷ "12143866164239048021030917283424216263377309185099704096317235600302831912062"
    ∷ "934650972362265999028062457054462628285482693704334323590406443310927365533"
    ∷ "5709868443893258075976348696661355716898495876243883251619397131511003808859"
    ∷ "19200870435978225707111062059747084165650991997241425080699860725083300967194"
    ∷ "7419588552507395652481651088034484897579724952953562618697845598160172257810"
    ∷ "2082940218526944230311718225077035922214683169814847712455127909555749686340"
    ∷ "19103219067921713944291392827692070036145651957329286315305642004821462161904" ∷ [])

module _ (s : Substrate) where
  open s use {Fr, G2, fr_from_str, fq_from_str, fq2_new, affine_g2_new_unchecked, affine_g2_into}

  unfoldable pub primitive_roots_of_unity : Outcome KzgError (List Fr)
  primitive_roots_of_unity =
      traverse (λ dec. or_panic (fr_from_str dec)) primitive_roots_of_unity_dec

  unfoldable pub g2_tau : Outcome KzgError G2
  g2_tau = do
    x_c0 ← or_panic (
        fq_from_str
          (codes "19394299006376106554626551996044114846855237028623244664226757033024550999552"))
    x_c1 ← or_panic (
        fq_from_str
          (codes "10478571113809844268398751534081669357808742555529167819607714577862447855483"))
    y_c0 ← or_panic (
        fq_from_str
          (codes "9205262336805673656533560220225620941045451042642528799409071118332922267006"))
    y_c1 ← or_panic (
        fq_from_str
          (codes "10552783866161062341197740743287753408530108186218052255509661543860392060676"))
    ok (affine_g2_into (affine_g2_new_unchecked (fq2_new x_c0 x_c1) (fq2_new y_c0 y_c1)))

  unfoldable pub get_primitive_root_of_unity : ℕ → Outcome KzgError (Option Fr)
  unfolding primitive_roots_of_unity
  get_primitive_root_of_unity power = do
    roots ← primitive_roots_of_unity
    ok (get_elem? roots power)
