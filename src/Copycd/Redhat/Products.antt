-- ===== src/Copycd/Redhat/Products.antt =====
-- The table `products` of xcat3/copycd/redhat.py: the products that are known by the first line of
-- their .discinfo file.
use xcat.Prelude.{String, Option, [], ◌∷◌, Dict, lookup}

abbrev pub products : Dict String
products =
    ("1480943823.812754", "centos-7.3")
    ∷ ("1450147276.351714", "centos-7.2")
    ∷ ("1449699925.561114", "centos-7.2")
    ∷ ("1427495138.035654", "centos-7.1")
    ∷ ("1404489053.504589", "centos-7.0")
    ∷ ("1463897259.552895", "centos-6.8")
    ∷ ("1438724467.511049", "centos-6.7")
    ∷ ("1414159991.958686", "centos-6.6")
    ∷ ("1385726732.061157", "centos-6.5")
    ∷ ("1362445555.957609", "centos-6.4")
    ∷ ("1341569670.539525", "centos-6.3")
    ∷ ("1323560292.885204", "centos-6.2")
    ∷ ("1310229985.226287", "centos-6")
    ∷ ("1381776971.473332", "centos-5.10")
    ∷ ("1357930415.252042", "centos-5.9")
    ∷ ("1330913492.861127", "centos-5.8")
    ∷ ("1301444731.448392", "centos-5.6")
    ∷ ("1272326751.405938", "centos-5.5")
    ∷ ("1254416275.453877", "centos-5.4")
    ∷ ("1237641529.260981", "centos-5.3")
    ∷ ("1214240246.285059", "centos-5.2")
    ∷ ("1213888991.267240", "centos-5.2")
    ∷ ("1195929637.060433", "centos-5.1")
    ∷ ("1195929648.203590", "centos-5.1")
    ∷ ("1176234647.982657", "centos-5")
    ∷ ("1156364963.862322", "centos-4.4")
    ∷ ("1178480581.024704", "centos-4.5")
    ∷ ("1195488871.805863", "centos-4.6")
    ∷ ("1195487524.127458", "centos-4.6")
    ∷ ("1170973598.629055", "rhelc-5")
    ∷ ("1170978545.752040", "rhels-5")
    ∷ ("1192660014.052098", "rhels-5.1")
    ∷ ("1192663619.181374", "rhels-5.1")
    ∷ ("1209608466.515430", "rhels-5.2")
    ∷ ("1209603563.756628", "rhels-5.2")
    ∷ ("1209597827.293308", "rhels-5.2")
    ∷ ("1231287803.932941", "rhels-5.3")
    ∷ ("1231285121.960246", "rhels-5.3")
    ∷ ("1250668122.507797", "rhels-5.4")
    ∷ ("1250663123.136977", "rhels-5.4")
    ∷ ("1250666120.105861", "rhels-5.4")
    ∷ ("1269262918.904535", "rhels-5.5")
    ∷ ("1269260915.992102", "rhels-5.5")
    ∷ ("1269263646.691048", "rhels-5.5")
    ∷ ("1328205744.315196", "rhels-5.8")
    ∷ ("1354216429.587870", "rhels-5.9")
    ∷ ("1354214009.518521", "rhels-5.9")
    ∷ ("1378846702.129847", "rhels-5.10")
    ∷ ("1378845049.643372", "rhels-5.10")
    ∷ ("1409145026.642170", "rhels-5.11")
    ∷ ("1285193176.460470", "rhels-6")
    ∷ ("1285192093.430930", "rhels-6")
    ∷ ("1305068199.328169", "rhels-6.1")
    ∷ ("1305067911.467189", "rhels-6.1")
    ∷ ("1321546114.510099", "rhels-6.2")
    ∷ ("1321546739.676170", "rhels-6.2")
    ∷ ("1339641244.734735", "rhels-6.3")
    ∷ ("1339640147.274118", "rhels-6.3")
    ∷ ("1339638991.532890", "rhels-6.3")
    ∷ ("1359576752.435900", "rhels-6.4")
    ∷ ("1359576196.686790", "rhels-6.4")
    ∷ ("1384196515.415715", "rhels-6.5")
    ∷ ("1384198011.520581", "rhels-6.5")
    ∷ ("1411733344.627228", "rhels-6.6")
    ∷ ("1411733344.616389", "rhels-6.6")
    ∷ ("1435823078.283602", "rhels-6.7")
    ∷ ("1435823078.298912", "rhels-6.7")
    ∷ ("1460645249.800975", "rhels-6.8")
    ∷ ("1460645249.825876", "rhels-6.8")
    ∷ ("1399449226.171922", "rhels-7")
    ∷ ("1399449226.155578", "rhels-7")
    ∷ ("1424360759.989976", "rhels-7.1")
    ∷ ("1424360759.878519", "rhels-7.1")
    ∷ ("1424361409.280138", "rhels-7.1")
    ∷ ("1446216863.790260", "rhels-7.2")
    ∷ ("1446216863.764721", "rhels-7.2")
    ∷ ("1446216863.771788", "rhels-7.2")
    ∷ ("1285193176.593806", "rhelhpc-6")
    ∷ ("1305067719.718814", "rhelhpc-6.1")
    ∷ ("1321545261.599847", "rhelhpc-6.2")
    ∷ ("1339640148.070971", "rhelhpc-6.3")
    ∷ ("1359576195.413831", "rhelhpc-6.4")
    ∷ ("1384196516.465862", "rhelhpc-6.5")
    ∷ ("1411733344.599861", "rhelhpc-6.6")
    ∷ ("1435823078.264564", "rhelhpc-6.7")
    ∷ ("1460645249.741799", "rhelhpc-6.8")
    ∷ ("1399449226.140088", "rhelhpc-7.0")
    ∷ ("1424360759.772760", "rhelhpc-7.1")
    ∷ ("1446216863.725127", "rhelhpc-7.2")
    ∷ ("1194015916.783841", "fedora-8")
    ∷ ("1194015385.299901", "fedora-8")
    ∷ ("1210112435.291709", "fedora-9")
    ∷ ("1210111941.792844", "fedora-9")
    ∷ ("1227147467.285093", "fedora-10")
    ∷ ("1227142402.812888", "fedora-10")
    ∷ ("1243981097.897160", "fedora-11")
    ∷ ("1257725234.740991", "fedora-12")
    ∷ ("1273712675.937554", "fedora-13")
    ∷ ("1287685820.403779", "fedora-14")
    ∷ ("1305315870.828212", "fedora-15")
    ∷ ("1372355769.065812", "fedora-19")
    ∷ ("1372402928.663653", "fedora-19")
    ∷ ("1386856788.124593", "fedora-20")
    ∷ ("1194512200.047708", "rhas-4.6")
    ∷ ("1194512327.501046", "rhas-4.6")
    ∷ ("1241464993.830723", "rhas-4.8")
    ∷ ("1273608367.051780", "SL-5.5")
    ∷ ("1299104542.844706", "SL-6")
    ∷ ("1390839789.062069", "SL-6.5")
    ∷ ("1394111947.452332", "pkvm-2.1")
    ∷ ("1413749127.352649", "pkvm-2.1.1")
    ∷ []

-- `products.get(id, None)`
unfoldable pub product_of : String → Option String
product_of id = lookup id products
